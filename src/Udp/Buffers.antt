-- ===== src/Udp/Buffers.antt =====
-- Reading back what was written into a buffer, and counting the bits of a boost::dynamic_bitset.
use firestr.Prelude.{
  ℕ, zero, suc, ◌+◌, ◌-◌, ◌<◌, ◌≤◌, ◌≡◌, ◌⊎◌, inr, refl, ap, ap₂, Bool, true, false, List, [], ◌∷◌,
  ◌++◌, Bytes, arith, length, take, drop, replicate, get_or, set, if◌then◌else◌, length-append,
  length-take, length-replicate, ◌==◌,
}
use firestr.Udp.Wire.{resize, write_at}

-- `set.count()`.
unfoldable pub count : List Bool → ℕ
count [] = 0
count (b ∷ bs) = if b then suc (count bs) else count bs

module _ {ℓ} {A : Type ℓ} where
  pub get_or-take : (n j : ℕ) (xs : List A) (x : A) → j < n → get_or (take n xs) j x ≡ get_or xs j x
  get_or-take zero j xs x h = absurd (omega arith)
  get_or-take (suc n) j [] x h = refl
  get_or-take (suc n) zero (y ∷ xs) x h = refl
  get_or-take (suc n) (suc j) (y ∷ xs) x h = get_or-take n j xs x (omega arith)

  get_or-nil : (j : ℕ) (x : A) → get_or [] j x ≡ x
  get_or-nil j x = refl

  pub get_or-drop : (n j : ℕ) (xs : List A) (x : A) → get_or (drop n xs) j x ≡ get_or xs (n + j) x
  get_or-drop zero j xs x = ap (λ k. get_or xs k x) (omega arith)
  get_or-drop (suc n) j [] x = refl
  get_or-drop (suc n) j (y ∷ xs) x =
      let e : suc n + j ≡ suc (n + j) = omega arith in rw e (get_or-drop n j xs x)

  pub get_or-append_left :
      (xs ys : List A) (j : ℕ) (x : A) → j < length xs → get_or (xs ++ ys) j x ≡ get_or xs j x
  get_or-append_left [] ys j x h = absurd (omega arith)
  get_or-append_left (y ∷ xs) ys zero x h = refl
  get_or-append_left (y ∷ xs) ys (suc j) x h = get_or-append_left xs ys j x (omega arith)

  -- Lists of one length that agree at each place.
  pub eq_of_get_or :
      (xs ys : List A) (x : A)
      → length xs ≡ length ys
      → ((j : ℕ) → j < length ys → get_or xs j x ≡ get_or ys j x)
      → xs ≡ ys
  eq_of_get_or [] [] x e h = refl
  eq_of_get_or [] (b ∷ ys) x e h = absurd (omega arith)
  eq_of_get_or (a ∷ xs) [] x e h = absurd (omega arith)
  eq_of_get_or (a ∷ xs) (b ∷ ys) x e h =
      ap₂ ◌∷◌ (h 0 (omega arith))
        (eq_of_get_or xs ys x (omega arith) (λ j p. h (suc j) (omega arith)))

pub length-write_at : (n : ℕ) (xs b : Bytes) → length (write_at n xs b) ≡ length b
unfolding write_at
length-write_at zero [] b = refl
length-write_at zero (x ∷ xs) [] = refl
length-write_at zero (x ∷ xs) (y ∷ b) = ap suc (length-write_at zero xs b)
length-write_at (suc n) xs [] = refl
length-write_at (suc n) xs (y ∷ b) = ap suc (length-write_at n xs b)

pub get_or-write_at_in :
    (n : ℕ) (xs b : Bytes) (j : ℕ)
    → n ≤ j
    → j < n + length xs
    → n + length xs ≤ length b
    → get_or (write_at n xs b) j 0 ≡ get_or xs (j - n) 0
unfolding write_at
get_or-write_at_in zero [] b j h k l = absurd (omega arith)
get_or-write_at_in zero (x ∷ xs) [] j h k l = absurd (omega arith)
get_or-write_at_in zero (x ∷ xs) (y ∷ b) zero h k l = refl
get_or-write_at_in zero (x ∷ xs) (y ∷ b) (suc j) h k l =
    let e : suc j - 0 ≡ suc j = omega arith in
    let e' : j - 0 ≡ j = omega arith in
    rw e (rw e' at (get_or-write_at_in zero xs b j (omega arith) (omega arith) (omega arith)))
get_or-write_at_in (suc n) xs [] j h k l = absurd (omega arith)
get_or-write_at_in (suc n) xs (y ∷ b) zero h k l = absurd (omega arith)
get_or-write_at_in (suc n) xs (y ∷ b) (suc j) h k l =
    let e : suc j - suc n ≡ j - n = omega arith in
    rw e (get_or-write_at_in n xs b j (omega arith) (omega arith) (omega arith))

pub get_or-write_at_out :
    (n : ℕ) (xs b : Bytes) (j : ℕ)
    → (j < n) ⊎ (n + length xs ≤ j)
    → get_or (write_at n xs b) j 0 ≡ get_or b j 0
unfolding write_at
get_or-write_at_out zero [] b j h = refl
get_or-write_at_out zero (x ∷ xs) [] j h = refl
get_or-write_at_out zero (x ∷ xs) (y ∷ b) zero h = absurd (omega arith)
get_or-write_at_out zero (x ∷ xs) (y ∷ b) (suc j) h =
    get_or-write_at_out zero xs b j (inr (omega arith))
get_or-write_at_out (suc n) xs [] j h = refl
get_or-write_at_out (suc n) xs (y ∷ b) zero h = refl
get_or-write_at_out (suc n) xs (y ∷ b) (suc j) h = get_or-write_at_out n xs b j (omega arith)

pub get_or-resize :
    (n : ℕ) (b : Bytes) (j : ℕ) → j < n → j < length b → get_or (resize n b) j 0 ≡ get_or b j 0
unfolding resize
get_or-resize n b j h k =
    rw
      (get_or-append_left (take n b) (replicate (n - length b) 0) j 0
        (omega (arith, length-take n b)))
      (get_or-take n j b 0 h)

pub length-resize : (n : ℕ) (b : Bytes) → length (resize n b) ≡ n
unfolding resize
length-resize n b = omega (
  arith,
  length-append (take n b) (replicate (n - length b) 0),
  length-take n b,
  length-replicate (n - length b) (zero),
)

pub get_or-set :
    (bs : List Bool) (i k : ℕ)
    → i < length bs
    → get_or (set bs i true) k false ≡ (if i == k then true else get_or bs k false)
get_or-set [] i k h = absurd (omega arith)
get_or-set (b ∷ bs) zero zero h = refl
get_or-set (b ∷ bs) zero (suc k) h = ground arith
get_or-set (b ∷ bs) (suc i) zero h = ground arith
get_or-set (b ∷ bs) (suc i) (suc k) h = ground (arith, get_or-set bs i k)

pub count-le : (bs : List Bool) → count bs ≤ length bs
unfolding count
count-le [] = omega arith
count-le (true ∷ bs) = omega (arith, count-le bs)
count-le (false ∷ bs) = omega (arith, count-le bs)

pub count-set : (bs : List Bool) (i : ℕ) → count bs ≤ count (set bs i true)
unfolding count
count-set [] i = omega arith
count-set (true ∷ bs) zero = omega arith
count-set (false ∷ bs) zero = omega arith
count-set (true ∷ bs) (suc i) = omega (arith, count-set bs i)
count-set (false ∷ bs) (suc i) = omega (arith, count-set bs i)

-- A full count means that every bit is set, and a bit that is not set shows in the count.
pub all_of_count :
    (bs : List Bool) (k : ℕ) → count bs ≡ length bs → k < length bs → get_or bs k false ≡ true
unfolding count
all_of_count [] k e h = absurd (omega arith)
all_of_count (true ∷ bs) zero e h = refl
all_of_count (true ∷ bs) (suc k) e h = all_of_count bs k (omega arith) (omega arith)
all_of_count (false ∷ bs) k e h = absurd (omega (arith, count-le bs))

pub count_of_all :
    (bs : List Bool) → ((k : ℕ) → k < length bs → get_or bs k false ≡ true) → count bs ≡ length bs
unfolding count
count_of_all [] h = refl
count_of_all (true ∷ bs) h = ap suc (count_of_all bs (λ k p. h (suc k) (omega arith)))
count_of_all (false ∷ bs) h = cc (h 0 (omega arith))

pub count-lt :
    (bs : List Bool) (k : ℕ) → k < length bs → get_or bs k false ≡ false → count bs < length bs
unfolding count
count-lt [] k h e = absurd (omega arith)
count-lt (true ∷ bs) zero h e = cc
count-lt (true ∷ bs) (suc k) h e = omega (arith, count-lt bs k (omega arith) e)
count-lt (false ∷ bs) k h e = omega (arith, count-le bs)
