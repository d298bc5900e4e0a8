-- ===== src/Unikey/Charset/Writing.antt =====
-- What `putB` does to the array: bytes that were put are in it as far as it reaches.
use chromiumos_devenv.Common.{
  ℕ, zero, suc, ◌+◌, ◌≤◌, ◌<◌, ◌≡◌, refl, sym, ap, ◌∙◌, subst, Bool, true, false, [], ◌∷◌, ◌++◌,
  append_assoc, append-nil, Option, none, some, Bytes, arith, length, length-append, take, ltb,
  returns, Bool-cases, inl, inr,
}
use chromiumos_devenv.Unikey.Charset.{StringBoStream, store, put_b, put_bytes}

-- The array has room for the size that the stream was given; a null array has.
abbrev pub Fits : Option Bytes → ℕ → Type 0
Fits none max = Unit {0}
Fits (some b) max = max ≤ length b

-- The array that the stream is started on has been written with `bs`: the first bytes, as many as
-- were put and fit, are theirs.
abbrev pub Holds : Option Bytes → ℕ → Bytes → Type 0
Holds none max bs = Unit {0}
Holds (some b) max bs = take max (take (length bs) b) ≡ take max bs

abbrev pub has_array : Option Bytes → Bool
has_array none = false
has_array (some b) = true

-- The stream after it was started, with or without an array, and `bs` were put.
pub record Written (given : Bool) (max : ℕ) (bs : Bytes) (os : StringBoStream) : Type 0 where
  pub kept : has_array os.buf ≡ given
  pub same_max : os.max ≡ max
  pub counted : os.n ≡ length bs
  pub room : Fits os.buf max
  pub holds : Holds os.buf max bs

store-returns :
    (b : Bytes) (i c : ℕ)
    → i < length b
    → (b' : Bytes) × (store b i c ≡ returns b')
      × (length b' ≡ length b)
      × (take (suc i) b' ≡ take i b ++ c ∷ [])
unfolding store
store-returns [] i c h = absurd (omega arith)
store-returns (x ∷ b) zero c h = (c ∷ b, refl, refl, refl)
store-returns (x ∷ b) (suc i) c h =
    let (b', e, len, kept) = store-returns b i c (omega arith) in
    (x ∷ b', rw e refl, ap suc len, ap (◌∷◌ x) kept)

pub take-take : (m n : ℕ) (xs : Bytes) → n ≤ m → take m (take n xs) ≡ take n xs
take-take m zero xs h = nothing m
  where
    nothing : (k : ℕ) → take {A = ℕ} k [] ≡ []
    nothing zero = refl
    nothing (suc k) = refl
take-take zero (suc n) xs h = absurd (omega arith)
take-take (suc m) (suc n) [] h = refl
take-take (suc m) (suc n) (x ∷ xs) h = ap (◌∷◌ x) (take-take m n xs (omega arith))

pub take-all : (m : ℕ) (xs : Bytes) → length xs ≤ m → take m xs ≡ xs
take-all zero [] h = refl
take-all (suc m) [] h = refl
take-all zero (x ∷ xs) h = absurd (omega arith)
take-all (suc m) (x ∷ xs) h = ap (◌∷◌ x) (take-all m xs (omega arith))

take-append_over : (m : ℕ) (xs ys : Bytes) → m ≤ length xs → take m (xs ++ ys) ≡ take m xs
take-append_over zero xs ys h = refl
take-append_over (suc m) [] ys h = absurd (omega arith)
take-append_over (suc m) (x ∷ xs) ys h = ap (◌∷◌ x) (take-append_over m xs ys (omega arith))

take-cut : (m n : ℕ) (xs : Bytes) → m ≤ n → take m (take n xs) ≡ take m xs
take-cut zero n xs h = refl
take-cut (suc m) zero xs h = absurd (omega arith)
take-cut (suc m) (suc n) [] h = refl
take-cut (suc m) (suc n) (x ∷ xs) h = ap (◌∷◌ x) (take-cut m n xs (omega arith))

length-snoc : (bs : Bytes) (c : ℕ) → length (bs ++ c ∷ []) ≡ suc (length bs)
length-snoc bs c = omega (arith, length-append bs (c ∷ []))

-- The three ways of `put_b`: the array is written, it is full, or there is none.
stored-Holds :
    (b b' bs : Bytes) (max n c : ℕ)
    → n ≡ length bs
    → n < max
    → Holds (some b) max bs
    → take (suc n) b' ≡ take n b ++ c ∷ []
    → Holds (some b') max (bs ++ c ∷ [])
stored-Holds b b' bs max n c e lt h kept =
    ap (λ k. take max (take k b')) (length-snoc bs c ∙ ap suc (sym e))
    ∙ ap (take max) (kept ∙ ap (λ xs. xs ++ c ∷ []) (ap (λ k. take k b) e ∙ so_far))
  where
    so_far : take (length bs) b ≡ bs
    so_far = sym (take-take max (length bs) b (omega arith)) ∙ h ∙ take-all max bs (omega arith)

full-Holds :
    (b bs : Bytes) (max n c : ℕ)
    → n ≡ length bs
    → max ≤ n
    → Holds (some b) max bs
    → Holds (some b) max (bs ++ c ∷ [])
full-Holds b bs max n c e le h =
    take-cut max (length (bs ++ c ∷ [])) b (omega (arith, length-snoc bs c))
    ∙ sym (take-cut max (length bs) b (omega arith))
    ∙ h
    ∙ sym (take-append_over max bs (c ∷ []) (omega arith))

put_b-Written :
    (array : Option Bytes) (max n c : ℕ) (bs : Bytes)
    → n ≡ length bs
    → Fits array max
    → Holds array max bs
    → (os' : StringBoStream) × (put_b c (record { buf = array; max = max; n = n }) ≡ returns os')
      × Written (has_array array) max (bs ++ c ∷ []) os'
unfolding put_b
put_b-Written none max n c bs e room h = (
  record { buf = none; max = max; n = n + 1 },
  refl,
  record {
    kept = refl;
    same_max = refl;
    counted = omega (arith, length-snoc bs c);
    room = tt;
    holds = tt;
  },
)
put_b-Written (some b) max n c bs e room h = elim (Bool-cases (ltb n max)) [
  | inl fits ↦
      let (b', er, len, kept) = store-returns b n c (omega (arith, below fits)) in
      (
        record { buf = some b'; max = max; n = n + 1 },
        rw (fits, er) refl,
        record {
          kept = refl;
          same_max = refl;
          counted = omega (arith, length-snoc bs c);
          room = omega arith;
          holds = stored-Holds b b' bs max n c e (below fits) h kept;
        },
      )
  | inr full ↦ (
    record { buf = some b; max = max; n = n + 1 },
    rw full refl,
    record {
      kept = refl;
      same_max = refl;
      counted = omega (arith, length-snoc bs c);
      room = room;
      holds = full-Holds b bs max n c e (above full) h;
    },
  )
]
  where
    below : ltb n max ≡ true → n < max
    below q = ground arith

    above : ltb n max ≡ false → max ≤ n
    above q = ground arith

pub put_bytes-Written :
    {given : Bool} (cs bs : Bytes) (max : ℕ) (os : StringBoStream)
    → Written given max bs os
    → (os' : StringBoStream) × (put_bytes cs os ≡ returns os') × Written given max (bs ++ cs) os'
unfolding put_bytes
put_bytes-Written {given} [] bs max os w =
    (os, refl, subst (λ xs. Written given max xs os) (sym (append-nil bs)) w)
put_bytes-Written {given} (c ∷ cs) bs max os w =
    let (os', e, w') = step_from os w in
    let (os'', es, w'') = put_bytes-Written cs (bs ++ c ∷ []) max os' w' in
    (os'', rw e es, subst (λ xs. Written given max xs os'') (append_assoc bs (c ∷ []) cs) w'')
  where
    step_from :
        (o : StringBoStream)
        → Written given max bs o
        → (o' : StringBoStream) × (put_b c o ≡ returns o') × Written given max (bs ++ c ∷ []) o'
    step_from o v =
        subst
          (λ m.
            (o' : StringBoStream) × (put_b c (record o { max = m }) ≡ returns o')
            × Written given max (bs ++ c ∷ []) o')
          (sym v.same_max)
          (subst
            (λ g.
              (o' : StringBoStream) × (put_b c (record o { max = max }) ≡ returns o')
              × Written g max (bs ++ c ∷ []) o')
            v.kept (put_b-Written o.buf max o.n c bs v.counted v.room v.holds))
