-- ===== src/FileSys/OpenFile/Buffer.antt =====
-- The buffer that the loop of `ReadAt` of nachos-3.4/code/filesys/openfile.cc fills.
use n4ch0s.Base.{
  ℕ, zero, suc, ◌+◌, ◌-◌, ◌<◌, ◌≤◌, ◌≡◌, refl, ap, ◌∙◌, List, [], ◌∷◌, ◌++◌, take, drop, length,
  get_or, arith, length-append,
}
use n4ch0s.FileSys.OpenFile.{overlay}

module _ {ℓ} {A : Type ℓ} where
  pub get_or-append_left :
      (xs ys : List A) (i : ℕ) (d : A) → i < length xs → get_or (xs ++ ys) i d ≡ get_or xs i d
  get_or-append_left [] ys i d h = absurd (omega arith)
  get_or-append_left (x ∷ xs) ys zero d h = refl
  get_or-append_left (x ∷ xs) ys (suc i) d h = get_or-append_left xs ys i d (omega arith)

  pub get_or-append_right :
      (xs ys : List A) (i : ℕ) (d : A)
      → length xs ≤ i
      → get_or (xs ++ ys) i d ≡ get_or ys (i - length xs) d
  get_or-append_right [] ys i d h = ap (λ k. get_or ys k d) (omega arith)
  get_or-append_right (x ∷ xs) ys zero d h = absurd (omega arith)
  get_or-append_right (x ∷ xs) ys (suc i) d h =
      get_or-append_right xs ys i d (omega arith) ∙ ap (λ k. get_or ys k d) (omega arith)

  pub length-take : (n : ℕ) (xs : List A) → n ≤ length xs → length (take n xs) ≡ n
  length-take zero xs h = refl
  length-take (suc n) [] h = absurd (omega arith)
  length-take (suc n) (x ∷ xs) h = ap suc (length-take n xs (omega arith))

  pub get_or-take :
      (n : ℕ) (xs : List A) (i : ℕ) (d : A) → i < n → get_or (take n xs) i d ≡ get_or xs i d
  get_or-take zero xs i d h = absurd (omega arith)
  get_or-take (suc n) [] i d h = refl
  get_or-take (suc n) (x ∷ xs) zero d h = refl
  get_or-take (suc n) (x ∷ xs) (suc i) d h = get_or-take n xs i d (omega arith)

  pub length-drop : (n : ℕ) (xs : List A) → length (drop n xs) ≡ length xs - n
  length-drop zero xs = omega arith
  length-drop (suc n) [] = omega arith
  length-drop (suc n) (x ∷ xs) = omega (arith, length-drop n xs)

  pub get_or-drop :
      (n : ℕ) (xs : List A) (i : ℕ) (d : A) → get_or (drop n xs) i d ≡ get_or xs (n + i) d
  get_or-drop zero xs i d = ap (λ k. get_or xs k d) (omega arith)
  get_or-drop (suc n) [] i d = refl
  get_or-drop (suc n) (x ∷ xs) i d =
      let e : suc (n + i) ≡ suc n + i = omega arith in
      get_or-drop n xs i d ∙ ap (λ k. get_or (x ∷ xs) k d) e

-- A buffer of `n` bytes with the bytes `from` in it from `at_byte` on.
module _ (buf : List ℕ) (at_byte : ℕ) (from : List ℕ)
    (fits : at_byte + length from ≤ length buf) where
  pub length-overlay : length (overlay buf at_byte from) ≡ length buf
  length-overlay = omega (
    arith,
    length-append (take at_byte buf) (from ++ drop (at_byte + length from) buf),
    length-append from (drop (at_byte + length from) buf),
    length-take at_byte buf (omega arith),
    length-drop (at_byte + length from) buf,
  )

  pub overlay_before :
      (j : ℕ) → j < at_byte → get_or (overlay buf at_byte from) j 0 ≡ get_or buf j 0
  overlay_before j h =
      let l : length (take at_byte buf) ≡ at_byte = length-take at_byte buf (omega arith) in
      get_or-append_left (take at_byte buf) (from ++ drop (at_byte + length from) buf) j 0
        (omega arith)
      ∙ get_or-take at_byte buf j 0 h

  past_first :
      (j : ℕ)
      → at_byte ≤ j
      → get_or (overlay buf at_byte from) j 0
        ≡ get_or (from ++ drop (at_byte + length from) buf) (j - at_byte) 0
  past_first j h =
      let l : length (take at_byte buf) ≡ at_byte = length-take at_byte buf (omega arith) in
      get_or-append_right (take at_byte buf) (from ++ drop (at_byte + length from) buf) j 0
        (omega arith)
      ∙ ap (λ x. get_or (from ++ drop (at_byte + length from) buf) (j - x) 0) l

  pub overlay_inside :
      (j : ℕ)
      → at_byte ≤ j
      → j < at_byte + length from
      → get_or (overlay buf at_byte from) j 0 ≡ get_or from (j - at_byte) 0
  overlay_inside j h g =
      past_first j h
      ∙ get_or-append_left from (drop (at_byte + length from) buf) (j - at_byte) 0 (omega arith)

  pub overlay_behind :
      (j : ℕ) → at_byte + length from ≤ j → get_or (overlay buf at_byte from) j 0 ≡ get_or buf j 0
  overlay_behind j h =
      let back : at_byte + length from + (j - at_byte - length from) ≡ j = omega arith in
      past_first j (omega arith)
      ∙ get_or-append_right from (drop (at_byte + length from) buf) (j - at_byte) 0 (omega arith)
      ∙ get_or-drop (at_byte + length from) buf (j - at_byte - length from) 0
      ∙ ap (λ x. get_or buf x 0) back
