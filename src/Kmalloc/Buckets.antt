-- ===== src/Kmalloc/Buckets.antt =====
-- Which bucket serves a request, and requests that no bucket serves.
use nbos.Base.{ℕ, ◌*◌, ◌^◌, ◌≤◌, ◌<◌, ◌≡◌, arith, List, [], ◌∷◌}
use nbos.Kmalloc.{bucket_sizes, find_bucket}

abbrev pub AllFrom : List ℕ → (ℕ → Type 0) → Type 0
AllFrom [] P = Unit
AllFrom (z ∷ zs) P = P z × AllFrom zs P

-- A request of at most a page is served by the smallest bucket that holds it: its size is
-- `16 * 2 ^ b` for the index `b`, and no size of `bucket_dir` that fits is smaller.
pub find_bucket_lem :
    (len : ℕ)
    → len ≤ 4096
    → ((find_bucket len).0 < 9)
      × ((find_bucket len).1 ≡ 16 * 2 ^ (find_bucket len).0)
      × (len ≤ (find_bucket len).1)
      × AllFrom bucket_sizes (λ z. len ≤ z → (find_bucket len).1 ≤ z)
unfolding find_bucket
find_bucket_lem len h = (ground arith, ground arith, ground arith, ground arith)

-- A larger request ends at the end marker, whose size is 0.
pub find_bucket-oversize : (len : ℕ) → 4096 < len → find_bucket len ≡ (9, 0)
unfolding find_bucket
find_bucket-oversize len h = ground arith
