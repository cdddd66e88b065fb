-- ===== src/Eeprom/Records.antt =====
-- The records with a checksum of grbl/eeprom.c.
use tele_handwriter.Base.{
  ℕ, zero, suc, ◌+◌, ◌<◌, ◌≤◌, ◌≡◌, ◌≢◌, ◌⊎◌, inl, inr, sym, ap, ◌∙◌, Bool, true, List, [], ◌∷◌,
  length, get_or, ◌==◌, arith, All, u16, ==_refl,
}
use tele_handwriter.Eeprom.{
  Programming, IsDocumented, Memory, eeprom_put_char, add_checksum, put_record, get_record,
  memcpy_to_eeprom_with_checksum, memcpy_from_eeprom_with_checksum,
}
use tele_handwriter.Eeprom.Cell.{eeprom_put_char_lem}

abbrev pub IsBytes : Memory → Type 0
IsBytes m = (k : ℕ) → m k < 256

abbrev pub IsByte : ℕ → Type 0
IsByte b = b < 256

module _ (hw : Programming) (doc : IsDocumented hw) where
  put-IsBytes :
      (addr new : ℕ) (m : Memory) → IsBytes m → new < 256 → IsBytes (eeprom_put_char hw addr new m)
  put-IsBytes addr new m b q k =
      let put = eeprom_put_char_lem hw addr new m doc (b addr) q in
      elim (decide_eq k addr) [
        | inl e ↦ rw e (omega (arith, put.0))
        | inr n ↦ omega (arith, put.1 k n, b k)
      ]
    where
      decide_eq : (a c : ℕ) → (a ≡ c) ⊎ (a ≢ c)
      decide_eq a c = ground arith

  add_checksum-lt : (c d : ℕ) → add_checksum c d < 256
  unfolding add_checksum
  add_checksum-lt c d = omega arith

  put_record-other :
      (checksum destination : ℕ) (source : List ℕ) (m : Memory) (k : ℕ)
      → IsBytes m
      → checksum < 256
      → All IsByte source
      → destination + length source < 65536
      → (k < destination) ⊎ (destination + length source < k)
      → put_record hw checksum destination source m k ≡ m k
  unfolding put_record
  put_record-other checksum destination [] m k b c s h out =
      (eeprom_put_char_lem hw destination checksum m doc (b destination) c).1 k (ground arith)
  put_record-other checksum destination (byte ∷ source) m k b c (s, rest) h out =
      let next : u16 (destination + 1) ≡ destination + 1 = omega arith in
      let n = eeprom_put_char hw destination byte m in
      let same : n k ≡ m k =
        (eeprom_put_char_lem hw destination byte m doc (b destination) s).1 k (ground arith) in
      ap (λ a. put_record hw (add_checksum checksum byte) a source n k) next
      ∙ put_record-other (add_checksum checksum byte) (destination + 1) source n k
          (put-IsBytes destination byte m b s) (add_checksum-lt checksum byte) rest (omega arith)
          (ground arith)
      ∙ same

  get-put_record :
      (checksum destination : ℕ) (source : List ℕ) (m : Memory)
      → IsBytes m
      → checksum < 256
      → All IsByte source
      → destination + length source < 65536
      → get_record checksum destination
          (length source)
          (put_record hw checksum destination source m)
        ≡ (source, true)
  unfolding put_record get_record
  get-put_record checksum destination [] m b c s h =
      ap (λ v. ([], checksum == v))
        ((eeprom_put_char_lem hw destination checksum m doc (b destination) c).0)
      ∙ ap (λ t. ([], t)) (==_refl checksum)
  get-put_record checksum destination (byte ∷ source) m b c (s, rest) h =
      let next : u16 (destination + 1) ≡ destination + 1 = omega arith in
      let sum = add_checksum checksum byte in
      let n = eeprom_put_char hw destination byte m in
      let bytes = put-IsBytes destination byte m b s in
      let stored : put_record hw sum (u16 (destination + 1)) source n destination ≡ byte =
        ap (λ a. put_record hw sum a source n destination) next
        ∙ put_record-other sum (destination + 1) source n destination bytes
            (add_checksum-lt checksum byte) rest (omega arith) (inl (omega arith))
        ∙ (eeprom_put_char_lem hw destination byte m doc (b destination) s).0 in
      let read = λ (sum : ℕ) (a : ℕ).
        get_record sum a (length source) (put_record hw (add_checksum checksum byte) a source n) in
      ap
        (λ v. (
          v ∷ (read (add_checksum checksum v) (u16 (destination + 1))).0,
          (read (add_checksum checksum v) (u16 (destination + 1))).1,
        ))
        stored
      ∙ ap (λ a. (byte ∷ (read sum a).0, (read sum a).1)) next
      ∙ ap (λ r. (byte ∷ r.0, r.1))
          (get-put_record sum (destination + 1) source n bytes (add_checksum-lt checksum byte) rest
            (omega arith))

  -- A record of bytes that fits in the address space is read back as it was stored, with a checksum
  -- that agrees, and no address outside its bytes and its checksum changes.
  pub memcpy_from-memcpy_to :
      (destination : ℕ) (source : List ℕ) (m : Memory)
      → IsBytes m
      → All IsByte source
      → destination + length source < 65536
      → let stored = memcpy_to_eeprom_with_checksum hw destination source m in
        (memcpy_from_eeprom_with_checksum destination (length source) stored ≡ (source, true))
        × ((k : ℕ) → (k < destination) ⊎ (destination + length source < k) → stored k ≡ m k)
  unfolding memcpy_to_eeprom_with_checksum memcpy_from_eeprom_with_checksum
  memcpy_from-memcpy_to destination source m b s h = (
    get-put_record 0 destination source m b (omega arith) s h,
    λ k out. put_record-other 0 destination source m k b (omega arith) s h out,
  )

  -- What is read depends only on the bytes of the record and its checksum.
  get_record-same :
      (checksum source size : ℕ) (m n : Memory)
      → source + size < 65536
      → ((k : ℕ) → source ≤ k → k ≤ source + size → m k ≡ n k)
      → get_record checksum source size m ≡ get_record checksum source size n
  unfolding get_record
  get_record-same checksum source zero m n h e =
      ap (λ v. ([], checksum == v)) (e source (omega arith) (omega arith))
  get_record-same checksum source (suc size) m n h e =
      let next : u16 (source + 1) ≡ source + 1 = omega arith in
      let shown : ℕ → List ℕ × Bool → List ℕ × Bool = λ v r. (v ∷ r.0, r.1) in
      ap (λ a. shown (m source) (get_record (add_checksum checksum (m source)) a size m)) next
      ∙ ap (shown (m source)) (
          get_record-same (add_checksum checksum (m source)) (source + 1) size m n (omega arith)
            (λ k p q. e k (omega arith) (omega arith)))
      ∙ ap (λ v. shown v (get_record (add_checksum checksum v) (source + 1) size n))
          (e source (omega arith) (omega arith))
      ∙ ap (λ a. shown (n source) (get_record (add_checksum checksum (n source)) a size n))
          (sym next)

  -- A stored record leaves alone every record that lies before it or after it.
  pub memcpy_from-memcpy_to_other :
      (destination : ℕ) (source : List ℕ) (place size : ℕ) (m : Memory)
      → IsBytes m
      → All IsByte source
      → destination + length source < 65536
      → place + size < 65536
      → (place + size < destination) ⊎ (destination + length source < place)
      → memcpy_from_eeprom_with_checksum place size
          (memcpy_to_eeprom_with_checksum hw destination source m)
        ≡ memcpy_from_eeprom_with_checksum place size m
  unfolding memcpy_from_eeprom_with_checksum
  memcpy_from-memcpy_to_other destination source place size m b s h r out =
      get_record-same 0 place size (memcpy_to_eeprom_with_checksum hw destination source m) m r
        (λ k p q. (memcpy_from-memcpy_to destination source m b s h).1 k (ground arith))

  put_record-at :
      (checksum destination : ℕ) (source : List ℕ) (m : Memory) (i : ℕ)
      → IsBytes m
      → All IsByte source
      → destination + length source < 65536
      → i < length source
      → put_record hw checksum destination source m (destination + i) ≡ get_or source i 0
  unfolding put_record
  put_record-at checksum destination [] m i b s h p = absurd (omega arith)
  put_record-at checksum destination (byte ∷ source) m i b (s, rest) h p =
      let sum = add_checksum checksum byte in
      let n = eeprom_put_char hw destination byte m in
      let bytes = put-IsBytes destination byte m b s in
      let next : u16 (destination + 1) ≡ destination + 1 = omega arith in
      ap (λ a. put_record hw sum a source n (destination + i)) next
      ∙ elim i
            as (λ (i : ℕ).
              i < suc (length source)
              → put_record hw sum (destination + 1) source n (destination + i)
                ≡ get_or (byte ∷ source) i 0) [
                  | zero ↦ λ q.
                      put_record-other sum (destination + 1) source n (destination + 0) bytes
                        (add_checksum-lt checksum byte) rest (omega arith) (inl (omega arith))
                      ∙ ap n (omega arith)
                      ∙ (eeprom_put_char_lem hw destination byte m doc (b destination) s).0
                  | suc j ↦ λ q.
                      ap (put_record hw sum (destination + 1) source n) (omega arith)
                      ∙ put_record-at sum (destination + 1) source n j bytes rest (omega arith)
                          (omega arith)
                ]
          p

  -- Each byte of a stored record stands at its own address.
  pub memcpy_to-at :
      (destination : ℕ) (source : List ℕ) (m : Memory) (i : ℕ)
      → IsBytes m
      → All IsByte source
      → destination + length source < 65536
      → i < length source
      → memcpy_to_eeprom_with_checksum hw destination source m (destination + i) ≡ get_or source i 0
  unfolding memcpy_to_eeprom_with_checksum
  memcpy_to-at destination source m i b s h p = put_record-at 0 destination source m i b s h p
