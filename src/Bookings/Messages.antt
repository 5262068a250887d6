-- ===== src/Bookings/Messages.antt =====
-- What the code leaves for the analytics and the public cache, each as a message that is appended to
-- the store, and for the search index, as rows of its outbox.
use fit.Common.{ℕ, ◌∷◌}
use fit.Store.{Message, projection_invalidated}
use fit.Store.Search.{upsert}
use fit.Runtime.{ok, Turn, M, visit, transaction, ◌>>◌}
use fit.Search.Enqueue.{enqueue_outbox}

unfoldable pub send : (Turn → Message) → M (Unit {0})
send message = visit λ t s. (ok tt, record s { sent = message t ∷ s.sent })

-- `enqueueSearchSync`, with the operation that every caller leaves to its default.
unfoldable pub enqueue_search_sync : ℕ → M (Unit {0})
unfolding enqueue_outbox
enqueue_search_sync posting_id = visit (transaction (enqueue_outbox 0 posting_id upsert))

-- `invalidatePublicPostingProjection` and `enqueueSearchSync`
unfoldable pub publish_change : ℕ → M (Unit {0})
publish_change posting_id = do
  send (λ t. projection_invalidated posting_id)
  enqueue_search_sync posting_id
