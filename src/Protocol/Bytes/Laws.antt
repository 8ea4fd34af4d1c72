-- ===== src/Protocol/Bytes/Laws.antt =====
-- Laws of the buffers of Protocol/Bytes.antt: filling a fresh buffer from the left, and lists of
-- bytes under `take` and `drop`.
use edge_ipc_daemon.Prelude.{
  ℕ, zero, suc, ◌+◌, ◌<◌, ◌^◌, get_or, ◌≡◌, refl, ap, sym, ◌∙◌, List, [], ◌∷◌, ◌++◌, some, none,
  true, arith, length, take, leb, le→leb, drop, replicate, length-append, length-replicate,
}
use mathlib.Core.List.{append_assoc}
use edge_ipc_daemon.Protocol.Bytes.{write, AllBytes, read32}

pub AllBytes-append : (xs ys : List ℕ) → AllBytes xs → AllBytes ys → AllBytes (xs ++ ys)
AllBytes-append [] ys h k = k
AllBytes-append (x ∷ xs) ys h k = (h.0, AllBytes-append xs ys h.1 k)

module _ {ℓ} {A : Type ℓ} where
  pub take-append_length : (n : ℕ) (xs ys : List A) → length xs ≡ n → take n (xs ++ ys) ≡ xs
  take-append_length zero [] ys h = refl
  take-append_length zero (x ∷ xs) ys h = absurd (omega arith)
  take-append_length (suc n) [] ys h = absurd (omega arith)
  take-append_length (suc n) (x ∷ xs) ys h =
      ap (λ t. x ∷ t) (take-append_length n xs ys (omega arith))

  pub drop-append_length : (n : ℕ) (xs ys : List A) → length xs ≡ n → drop n (xs ++ ys) ≡ ys
  drop-append_length zero [] ys h = refl
  drop-append_length zero (x ∷ xs) ys h = absurd (omega arith)
  drop-append_length (suc n) [] ys h = absurd (omega arith)
  drop-append_length (suc n) (x ∷ xs) ys h = drop-append_length n xs ys (omega arith)

  pub take_all : (n : ℕ) (xs : List A) → length xs ≡ n → take n xs ≡ xs
  take_all n xs h = ap (take n) (append-nil' xs) ∙ take-append_length n xs [] h
    where
      append-nil' : (ys : List A) → ys ≡ ys ++ []
      append-nil' [] = refl
      append-nil' (y ∷ ys) = ap (λ t. y ∷ t) (append-nil' ys)

  pub replicate-add : (n m : ℕ) (a : A) → replicate (n + m) a ≡ replicate n a ++ replicate m a
  replicate-add zero m a = let e : zero + m ≡ m = omega arith in ap (λ k. replicate k a) e
  replicate-add (suc n) m a =
      let e : suc n + m ≡ suc (n + m) = omega arith in
      ap (λ k. replicate k a) e ∙ ap (λ t. a ∷ t) (replicate-add n m a)

-- A write over bytes of the same number replaces those.
pub write_over :
    (done old bytes rest : List ℕ) (off : ℕ)
    → length done ≡ off
    → length old ≡ length bytes
    → write (done ++ (old ++ rest)) off bytes ≡ some (done ++ (bytes ++ rest))
unfolding write
write_over done old bytes rest off h k =
    rw (fits, take-append_length off done (old ++ rest) h, tail) refl
  where
    total : length (done ++ (old ++ rest)) ≡ off + length bytes + length rest
    total = omega (arith, length-append done (old ++ rest), length-append old rest)

    fits : leb (off + length bytes) (length (done ++ (old ++ rest))) ≡ true
    fits = le→leb _ _ (omega (arith, total))

    tail : drop (off + length bytes) (done ++ (old ++ rest)) ≡ rest
    tail =
        ap (drop (off + length bytes)) (sym (append_assoc done old rest))
        ∙ drop-append_length (off + length bytes) (done ++ old) rest
            (omega (arith, length-append done old))

-- The next `n` bytes of a buffer that is filled up to `done`.
pub write_next :
    (done bytes : List ℕ) (off n m : ℕ)
    → length done ≡ off
    → length bytes ≡ n
    → write (done ++ replicate (n + m) 0) off bytes ≡ some ((done ++ bytes) ++ replicate m 0)
write_next done bytes off n m h k =
    rw (replicate-add n m (let z : ℕ = 0 in z), append_assoc done bytes (replicate m 0))
      (write_over done (replicate n 0) bytes (replicate m 0) off h
        (omega (arith, length-replicate {0} {A = ℕ} n 0)))

-- A write that does not fit is refused.
pub write_beyond :
    (buf bytes : List ℕ) (off : ℕ) → length buf < off + length bytes → write buf off bytes ≡ none
unfolding write
write_beyond buf bytes off h = ground arith

pub get_or-lt : (bs : List ℕ) (i : ℕ) → AllBytes bs → get_or bs i 0 < 256
get_or-lt [] i h = omega arith
get_or-lt (b ∷ bs) zero h = h.0
get_or-lt (b ∷ bs) (suc i) h = get_or-lt bs i h.1

pub read32-lt : (bs : List ℕ) (off : ℕ) → AllBytes bs → read32 bs off < 2 ^ 32
unfolding read32
read32-lt bs off h = omega (
  arith,
  get_or-lt bs off h,
  get_or-lt bs (off + 1) h,
  get_or-lt bs (off + 2) h,
  get_or-lt bs (off + 3) h,
)

get_or-take : (n i : ℕ) (bs : List ℕ) → i < n → get_or (take n bs) i 0 ≡ get_or bs i 0
get_or-take zero i bs h = absurd (omega arith)
get_or-take (suc n) i [] h = refl
get_or-take (suc n) zero (b ∷ bs) h = refl
get_or-take (suc n) (suc i) (b ∷ bs) h = get_or-take n i bs (omega arith)

pub read32-take : (n off : ℕ) (bs : List ℕ) → off + 3 < n → read32 (take n bs) off ≡ read32 bs off
unfolding read32
read32-take n off bs h = omega (
  arith,
  get_or-take n off bs (omega arith),
  get_or-take n (off + 1) bs (omega arith),
  get_or-take n (off + 2) bs (omega arith),
  get_or-take n (off + 3) bs (omega arith),
)

pub take-add {ℓ} :
    {A : Type ℓ} (n m : ℕ) (xs : List A) → take (n + m) xs ≡ take n xs ++ take m (drop n xs)
take-add zero m xs = let e : zero + m ≡ m = omega arith in ap (λ k. take k xs) e
take-add {A} (suc n) m [] = let e : suc n + m ≡ suc (n + m) = omega arith in rw e (take-nil m)
  where
    take-nil : (k : ℕ) → ◌≡◌ {A = List A} [] (take k [])
    take-nil zero = refl
    take-nil (suc k) = refl
take-add (suc n) m (x ∷ xs) =
    let e : suc n + m ≡ suc (n + m) = omega arith in
    ap (λ k. take k (x ∷ xs)) e ∙ ap (λ t. x ∷ t) (take-add n m xs)

pub drop-add {ℓ} : {A : Type ℓ} (n m : ℕ) (xs : List A) → drop m (drop n xs) ≡ drop (n + m) xs
drop-add zero m xs = let e : m ≡ zero + m = omega arith in ap (λ k. drop k xs) e
drop-add {A} (suc n) m [] = let e : suc n + m ≡ suc (n + m) = omega arith in rw e (drop-nil m)
  where
    drop-nil : (k : ℕ) → ◌≡◌ {A = List A} (drop k []) []
    drop-nil zero = refl
    drop-nil (suc k) = refl
drop-add (suc n) m (x ∷ xs) =
    let e : suc (n + m) ≡ suc n + m = omega arith in drop-add n m xs ∙ ap (λ k. drop k (x ∷ xs)) e
