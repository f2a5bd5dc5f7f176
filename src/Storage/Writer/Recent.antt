-- ===== src/Storage/Writer/Recent.antt =====
-- storage/writer.py: the receipts kept by `deque(maxlen=...)`.
use viskium.Prelude.{ℕ, ◌≤◌, ◌<◌, List, [], ◌∷◌, arith, length, length-append}
use viskium.Storage.Writer.State.{WriterReceiptMetadata}
use viskium.Storage.Writer.Worker.{push_recent}

pub length-push_recent :
    (limit : ℕ) (xs : List WriterReceiptMetadata) (x : WriterReceiptMetadata)
    → 0 < limit
    → length xs ≤ limit
    → length (push_recent limit xs x) ≤ limit
unfolding push_recent
length-push_recent limit [] x p h = omega arith
length-push_recent limit (y ∷ ys) x p h = ground (arith, length-append ys (x ∷ []))
