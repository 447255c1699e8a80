-- ===== src/Server/Storing.antt =====
-- What the `memcpy` of a chunk leaves in the mapped file.
use ee542_lab2_fast_reliable.Common.{
  ℕ, zero, suc, ◌+◌, ◌-◌, ◌≤◌, ◌<◌, ◌≡◌, refl, ap, List, [], ◌∷◌, ◌&&◌, ltb, leb, if◌then◌else◌,
  arith, length, get_or, take,
}
use ee542_lab2_fast_reliable.Protocol.Header.{copy_to}

pub length-copy_to :
    (offset : ℕ) (source out : List ℕ) → length (copy_to offset source out) ≡ length out
unfolding copy_to
length-copy_to zero [] out = refl
length-copy_to zero (b ∷ source) [] = refl
length-copy_to zero (b ∷ source) (o ∷ out) = ap suc (length-copy_to zero source out)
length-copy_to (suc offset) source [] = refl
length-copy_to (suc offset) source (o ∷ out) = ap suc (length-copy_to offset source out)

pub get_or-copy_to :
    (offset : ℕ) (source out : List ℕ) (k : ℕ)
    → offset + length source ≤ length out
    → get_or (copy_to offset source out) k 0 ≡ (
        if leb offset k && ltb k (offset + length source)
        then get_or source (k - offset) 0
        else get_or out k 0)
unfolding copy_to
get_or-copy_to zero [] out k fits = ground arith
get_or-copy_to zero (b ∷ source) [] k fits = absurd (omega arith)
get_or-copy_to zero (b ∷ source) (o ∷ out) zero fits = ground arith
get_or-copy_to zero (b ∷ source) (o ∷ out) (suc k) fits =
    ground (arith, get_or-copy_to zero source out k (omega arith))
get_or-copy_to (suc offset) source [] k fits = absurd (omega arith)
get_or-copy_to (suc offset) source (o ∷ out) zero fits = ground arith
get_or-copy_to (suc offset) source (o ∷ out) (suc k) fits =
    ground (arith, get_or-copy_to offset source out k (omega arith))

pub get_or-take : (n i : ℕ) (xs : List ℕ) → i < n → get_or (take n xs) i 0 ≡ get_or xs i 0
get_or-take zero i xs h = absurd (omega arith)
get_or-take (suc n) i [] h = refl
get_or-take (suc n) zero (x ∷ xs) h = refl
get_or-take (suc n) (suc i) (x ∷ xs) h = get_or-take n i xs (omega arith)

-- Lists of one length with the same bytes are equal.
pub same_bytes :
    (xs ys : List ℕ)
    → length xs ≡ length ys
    → ((k : ℕ) → k < length ys → get_or xs k 0 ≡ get_or ys k 0)
    → xs ≡ ys
same_bytes [] [] e h = refl
same_bytes [] (y ∷ ys) e h = absurd (omega arith)
same_bytes (x ∷ xs) [] e h = absurd (omega arith)
same_bytes (x ∷ xs) (y ∷ ys) e h =
    let head : x ≡ y = h 0 (omega arith) in
    let tail : xs ≡ ys = same_bytes xs ys (omega arith) (λ k l. h (suc k) (omega arith)) in
    rw (head, tail)
