-- ===== src/Base/Ring.antt =====
-- The ring buffers of the firmware, over any element type. `size` slots hold at most `size - 1`
-- elements; `head` is the next slot to write and `tail` the oldest element.
use tele_handwriter.Base.Tests.{ltb, leb, ◌==◌, if◌then◌else◌}
use tele_handwriter.Base.Lists.{length, get_or, set, get_or-set_self, get_or-set_ne}
use Prim.Native.Nat.{ℕ, zero, suc, ◌+◌, ◌-◌, ◌≤◌, ◌<◌}
use mathlib.Core.Path.{◌≡◌, refl, ap, ap₂}
use mathlib.Core.Logic.{◌≢◌}
use mathlib.Core.List.{List, [], ◌∷◌, ◌++◌}
use native.Mathlib.Omega.{arith}

-- The slot after `i`: `i + 1`, or 0 at the end.
abbrev pub next : ℕ → ℕ → ℕ
next size i = if i + 1 == size then 0 else i + 1

-- The number of elements between `tail` and `head`.
abbrev pub count : ℕ → ℕ → ℕ → ℕ
count size head tail = if leb tail head then head - tail else size - (tail - head)

-- The slot `n` steps after `i`.
abbrev pub advance : ℕ → ℕ → ℕ → ℕ
advance size i n = if ltb (i + n) size then i + n else i + n - size

module _ {ℓ} {A : Type ℓ} (default : A) (size : ℕ) where
  -- The `n` elements from slot `i` on.
  abbrev pub window : List A → ℕ → ℕ → List A
  window buf i zero = []
  window buf i (suc n) = get_or buf i default ∷ window buf (next size i) n

  -- What the ring holds, oldest first.
  abbrev pub contents : List A → ℕ → ℕ → List A
  contents buf head tail = window buf tail (count size head tail)

  pub length-window : (buf : List A) (i n : ℕ) → length (window buf i n) ≡ n
  length-window buf i zero = refl
  length-window buf i (suc n) = ap suc (length-window buf (next size i) n)

  -- Writing just past a window extends it by the new element.
  window-set :
      (buf : List A) (x : A) (n i j : ℕ)
      → size ≤ length buf
      → i < size
      → n < size
      → j ≡ advance size i n
      → window (set buf j x) i (suc n) ≡ window buf i n ++ (x ∷ [])
  window-set buf x zero i j hs hi hn e =
      let same : j ≡ i = ground arith in rw (same, get_or-set_self buf i x default (omega arith))
  window-set buf x (suc n) i j hs hi hn e =
      ap₂ ◌∷◌ (get_or-set_ne buf j i x default (ground arith))
        (window-set buf x n (next size i) j hs (ground arith) (omega arith) (ground arith))

  -- Writing just past a window leaves it as it is.
  window-set_past :
      (buf : List A) (x : A) (n i j : ℕ)
      → i < size
      → n < size
      → j ≡ advance size i n
      → window (set buf j x) i n ≡ window buf i n
  window-set_past buf x zero i j hi hn e = refl
  window-set_past buf x (suc n) i j hi hn e =
      ap₂ ◌∷◌ (get_or-set_ne buf j i x default (ground arith))
        (window-set_past buf x n (next size i) j (ground arith) (omega arith) (ground arith))

  pub contents-set_head :
      (buf : List A) (x : A) (head tail : ℕ)
      → head < size
      → tail < size
      → contents (set buf head x) head tail ≡ contents buf head tail
  contents-set_head buf x head tail hh ht =
      window-set_past buf x (count size head tail) tail head ht (ground arith) (ground arith)

  pub contents-push :
      (buf : List A) (x : A) (head tail : ℕ)
      → size ≤ length buf
      → head < size
      → tail < size
      → next size head ≢ tail
      → contents (set buf head x) (next size head) tail ≡ contents buf head tail ++ (x ∷ [])
  contents-push buf x head tail hs hh ht ne =
      let more : count size (next size head) tail ≡ suc (count size head tail) = ground arith in
      rw more
        (window-set buf x (count size head tail) tail head hs ht (ground arith) (ground arith))

  pub contents-pop :
      (buf : List A) (head tail : ℕ)
      → head < size
      → tail < size
      → head ≢ tail
      → contents buf head tail ≡ get_or buf tail default ∷ contents buf head (next size tail)
  contents-pop buf head tail hh ht ne =
      let more : count size head tail ≡ suc (count size head (next size tail)) = ground arith in
      rw more refl

  pub contents-empty : (buf : List A) (i : ℕ) → contents buf i i ≡ []
  contents-empty buf i = let none_left : count size i i ≡ 0 = ground arith in rw none_left refl

pub next-lt : (size i : ℕ) → i < size → next size i < size
next-lt size i h = ground arith

pub count-lt : (size head tail : ℕ) → head < size → tail < size → count size head tail < size
count-lt size head tail hh ht = ground arith

pub count-full :
    (size head tail : ℕ)
    → head < size
    → tail < size
    → next size head ≡ tail
    → count size head tail + 1 ≡ size
count-full size head tail hh ht e = ground arith

pub count-push :
    (size head tail : ℕ)
    → head < size
    → tail < size
    → next size head ≢ tail
    → count size (next size head) tail ≡ suc (count size head tail)
count-push size head tail hh ht ne = ground arith
