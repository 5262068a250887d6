-- ===== src/Postings/Frame/Holds.antt =====
-- The owner's block methods never change or delete a hold or the block of a renting, and keep the invariant
-- of the bookings.
use fit.Common.{
  ℕ, ◌≡◌, refl, ◌∙◌, inl, inr, Bool, true, false, not, ◌&&◌, some, List, [], ◌∷◌, arith, ◌==◌, find,
  update, remove, Bool-cases,
}
use fit.Common.Text.{Text}
use fit.Store.{Block, Store}
use fit.Runtime.{World, M, pure, ◌>>=◌}
use fit.Runtime.Logic.{Steady, safely, Safe, Any, bind-Safe, pure-Safe}
use fit.Bookings.Machine.Invariant.{Inv}
use fit.Bookings.Safety.{Inv-IgnoresLocks, Inv-sent, Inv-outbox}
use fit.Postings.Dates.{BlockInput}
use fit.Postings.Blocks.{is_owner, is_owner_block, changed_block}
use fit.Postings.Availability.{create_block, update_block, delete_block}
use fit.Postings.Frame.{Unconcerned, create_block-Safe, update_block-Safe, delete_block-Safe}

-- A row of that id that an owner does not write.
abbrev pub is_hold : (id : ℕ) → Block → Bool
is_hold id b = b.id == id && not (is_owner b.source)

-- The hold is in the store, as it is.
unfoldable pub KeepsHold : Block → Store → Type 0
KeepsHold hold s = find (is_hold hold.id) s.blocks ≡ some hold

find-update-miss :
    (p q : Block → Bool) (f : Block → Block)
    → ((b : Block) → q b ≡ true → (p b ≡ false) × (p (f b) ≡ false))
    → (bs : List Block) → find p (update q f bs) ≡ find p bs
unfolding find update
find-update-miss p q f h [] = refl
find-update-miss p q f h (b ∷ bs) = elim (Bool-cases (q b)) [
  | inl hit ↦ rw (hit, (h b hit).0, (h b hit).1) (find-update-miss p q f h bs)
  | inr miss ↦ rw (miss, find-update-miss p q f h bs) refl
]

find-remove-miss :
    (p q : Block → Bool)
    → ((b : Block) → q b ≡ true → p b ≡ false)
    → (bs : List Block) → find p (remove q bs) ≡ find p bs
unfolding find remove
find-remove-miss p q h [] = refl
find-remove-miss p q h (b ∷ bs) = elim (Bool-cases (q b)) [
  | inl hit ↦ rw (hit, h b hit) (find-remove-miss p q h bs)
  | inr miss ↦ rw (miss, find-remove-miss p q h bs) refl
]

hold_is_no_owner_block :
    (id posting_id block_id : ℕ) (b : Block)
    → is_owner_block posting_id block_id b ≡ true
    → is_hold id b ≡ false
hold_is_no_owner_block id posting_id block_id b h = ground arith

KeepsHold-Unconcerned : (hold : Block) → Unconcerned (KeepsHold hold)
unfolding KeepsHold find
KeepsHold-Unconcerned hold = record {
  locks = λ s ls h. h;
  messages = λ s ms h. h;
  outbox = λ s rows h. h;
  created = λ s b own h. let miss : is_hold hold.id b ≡ false = ground arith in rw miss h;
  changed = λ s posting_id block_id input h.
      find-update-miss (is_hold hold.id) (is_owner_block posting_id block_id) (changed_block input)
        (λ b own.
          let none_held = hold_is_no_owner_block hold.id posting_id block_id b own in
          (none_held, none_held))
        s.blocks
      ∙ h;
  removed = λ s posting_id block_id h.
      find-remove-miss (is_hold hold.id) (is_owner_block posting_id block_id)
        (hold_is_no_owner_block hold.id posting_id block_id) s.blocks
      ∙ h;
}

Inv-blocks : (s : Store) (bs : List Block) → Inv s → Inv (record s { blocks = bs })
Inv-blocks s bs v = record {
  core = record {
    unique = v.unique;
    sound = v.sound;
    disjoint = v.disjoint;
    one_each = v.one_each;
  };
  capped = v.capped;
}

Inv-Unconcerned : Unconcerned Inv
Inv-Unconcerned = record {
  locks = Inv-IgnoresLocks;
  messages = Inv-sent;
  outbox = Inv-outbox;
  created = λ s b own. Inv-blocks s _;
  changed = λ s posting_id block_id input. Inv-blocks s _;
  removed = λ s posting_id block_id. Inv-blocks s _;
}

both-Unconcerned :
    {P Q : Store → Type 0} → Unconcerned P → Unconcerned Q → Unconcerned (λ s. P s × Q s)
both-Unconcerned p q = record {
  locks = λ s ls (h, k). (p.locks s ls h, q.locks s ls k);
  messages = λ s ms (h, k). (p.messages s ms h, q.messages s ms k);
  outbox = λ s rows (h, k). (p.outbox s rows h, q.outbox s rows k);
  created = λ s b own (h, k). (p.created s b own h, q.created s b own k);
  changed = λ s posting_id block_id input (h, k).
      (p.changed s posting_id block_id input h, q.changed s posting_id block_id input k);
  removed = λ s posting_id block_id (h, k).
      (p.removed s posting_id block_id h, q.removed s posting_id block_id k);
}

-- A call of one of the three methods by a user, without what it returns.
pub data BlockCall : Type 0 where
  creates : (id owner_id : ℕ) → BlockInput → BlockCall
  updates : (id owner_id block_id : ℕ) → BlockInput → BlockCall
  deletes : (id owner_id block_id : ℕ) → BlockCall

unfoldable pub call : (is_unsafe : Text → Bool) → BlockCall → M (Unit {0})
call is_unsafe (creates id owner_id input) =
    create_block is_unsafe id owner_id input >>= λ _. pure tt
call is_unsafe (updates id owner_id block_id input) =
    update_block is_unsafe id owner_id block_id input >>= λ _. pure tt
call is_unsafe (deletes id owner_id block_id) = delete_block id owner_id block_id

call-Safe :
    {P : Store → Type 0}
    → Unconcerned P
    → (is_unsafe : Text → Bool) (c : BlockCall) → Safe P (call is_unsafe c) Any
unfolding call
call-Safe free is_unsafe (creates id owner_id input) =
    bind-Safe (create_block-Safe free is_unsafe id owner_id input) λ _ _. pure-Safe tt tt
call-Safe free is_unsafe (updates id owner_id block_id input) =
    bind-Safe (update_block-Safe free is_unsafe id owner_id block_id input) λ _ _. pure-Safe tt tt
call-Safe free is_unsafe (deletes id owner_id block_id) =
    delete_block-Safe free id owner_id block_id

-- Whichever block method an owner calls and however it ends, a hold or the block of a renting stays in
-- the store as it is, and so does the invariant of the bookings, if every other request keeps both.
pub call_keeps_holds :
    (is_unsafe : Text → Bool) (c : BlockCall) (hold : Block) (w : World)
    → Steady (λ s. KeepsHold hold s × Inv s) w
    → KeepsHold hold (call is_unsafe c w).1.store × Inv (call is_unsafe c w).1.store
call_keeps_holds is_unsafe c hold w steady =
    (safely (call-Safe (both-Unconcerned (KeepsHold-Unconcerned hold) Inv-Unconcerned) is_unsafe c)
      w steady).0
