-- ===== src/Unikey/Driver/Display.antt =====
-- What the driver shows after a key, if the word that it goes on with is the adapter's composition.
use chromiumos_devenv.Common.{
  ℕ, zero, suc, ◌+◌, ◌-◌, ◌≤◌, ◌≡◌, inl, inr, refl, sym, ap, ◌∙◌, Bool, true, false, List, [], ◌∷◌,
  ◌++◌, append_assoc, append-nil, arith, is_empty, length, length-append, take, ◌==◌, if◌then◌else◌,
  Bool-cases,
}
use chromiumos_devenv.Unikey.Utf8.{decode_utf8}
use chromiumos_devenv.Unikey.Utf16.{codepoints_to_u16, units_of}
use chromiumos_devenv.Unikey.Adapter.{Output, pop_backs}
use chromiumos_devenv.Unikey.Adapter.Composing.{added, kept, pop_backs-take}
use chromiumos_devenv.Unikey.Driver.{driver_display}

pub units-append :
    (xs ys : List ℕ) → codepoints_to_u16 (xs ++ ys) ≡ codepoints_to_u16 xs ++ codepoints_to_u16 ys
unfolding codepoints_to_u16
units-append [] ys = refl
units-append (x ∷ xs) ys =
    ap (◌++◌ (units_of x)) (units-append xs ys)
    ∙ sym (append_assoc (units_of x) (codepoints_to_u16 xs) (codepoints_to_u16 ys))

take-append_past :
    (n k : ℕ) (xs ys : List ℕ) → k ≡ length xs + n → take k (xs ++ ys) ≡ xs ++ take n ys
take-append_past n k [] ys h = ap (λ (i : ℕ). take i ys) (none_before h)
  where
    none_before : k ≡ 0 + n → k ≡ n
    none_before e = omega arith
take-append_past n zero (x ∷ xs) ys h = absurd (omega arith)
take-append_past n (suc k) (x ∷ xs) ys h = ap (◌∷◌ x) (take-append_past n k xs ys (omega arith))

-- The driver drops the code points that the adapter drops, if they are of the current word.
pop_backs-word :
    (out : Output) (done word : List ℕ)
    → out.backs ≤ length word
    → pop_backs out.backs (done ++ word) ≡ done ++ kept out word
pop_backs-word out done word le =
    pop_backs-take out.backs (done ++ word)
    ∙ take-append_past (length word - out.backs) (length (done ++ word) - out.backs) done word
        (omega (arith, length-append done word))

-- The driver's display after a key, whose current word is the adapter's composition.
pub driver_display-word :
    (out : Output) (ch : ℕ) (done word : List ℕ)
    → out.backs ≤ length word
    → (is_empty out.buf ≡ true → (out.ret == 0) ≡ (out.backs == 0))
    → driver_display out ch (done ++ word) ≡ done ++ (kept out word ++ added out ch)
unfolding driver_display
driver_display-word out ch done word le quiet =
    rw (pop_backs-word out done word le) (elim (Bool-cases (is_empty out.buf)) [
      | inl none' ↦ rw none' (rw (quiet none') (tail (out.backs == 0)))
      | inr some' ↦ rw some' (append_assoc done (kept out word) (decode_utf8 out.buf))
    ])
  where
    tail :
        (b : Bool)
        → (if b then (done ++ kept out word) ++ ch ∷ [] else done ++ kept out word)
          ≡ done ++ (kept out word ++ (if b then ch ∷ [] else []))
    tail true = append_assoc done (kept out word) (ch ∷ [])
    tail false = ap (◌++◌ done) (sym (append-nil (kept out word)))
