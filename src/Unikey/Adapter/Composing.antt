-- ===== src/Unikey/Adapter/Composing.antt =====
-- What a typed character does to the composition: code points taken back, and those added.
use chromiumos_devenv.Common.{
  ℕ, zero, suc, ◌-◌, ◌≤◌, ◌≡◌, refl, sym, ap, ◌∙◌, Bool, true, false, not, List, [], ◌∷◌, ◌++◌,
  append-nil, arith, is_empty, length, take, init, ◌==◌, if◌then◌else◌,
}
use chromiumos_devenv.Platform.Host.{none_style, HostCall, commit_text, set_composition}
use chromiumos_devenv.Unikey.Utf8.{decode_utf8, append_utf8}
use chromiumos_devenv.Unikey.Utf16.{codepoints_to_u16}
use chromiumos_devenv.Unikey.Adapter.{Output, pop_backs, typed_composition}

length-init : (x : ℕ) (xs : List ℕ) → length (init (x ∷ xs)) ≡ length xs
length-init x [] = refl
length-init x (y ∷ xs) = ap suc (length-init y xs)

take-init : (n : ℕ) (x : ℕ) (xs : List ℕ) → n ≤ length xs → take n (init (x ∷ xs)) ≡ take n (x ∷ xs)
take-init zero x xs h = refl
take-init (suc n) x [] h = absurd (omega arith)
take-init (suc n) x (y ∷ xs) h = ap (◌∷◌ x) (take-init n y xs (omega arith))

take-all : (xs : List ℕ) → take (length xs) xs ≡ xs
take-all [] = refl
take-all (x ∷ xs) = ap (◌∷◌ x) (take-all xs)

-- The loop that deletes keeps the first code points, and stops at the empty composition.
pub pop_backs-take : (n : ℕ) (xs : List ℕ) → pop_backs n xs ≡ take (length xs - n) xs
unfolding pop_backs
pop_backs-take zero xs = sym (ap (λ (k : ℕ). take k xs) (omega arith) ∙ take-all xs)
pop_backs-take (suc n) [] = sym (ap (λ (k : ℕ). take k []) (none_left (suc n)))
  where
    none_left : (k : ℕ) → 0 - k ≡ 0
    none_left k = omega arith
pop_backs-take (suc n) (x ∷ xs) =
    pop_backs-take n (init (x ∷ xs))
    ∙ take-init (length (init (x ∷ xs)) - n) x xs (omega (arith, length-init x xs))
    ∙ ap (λ (k : ℕ). take k (x ∷ xs)) (omega (arith, length-init x xs))

-- What `process` adds for the character `ch`: the decoded output, or the character itself if the
-- engine did not take it.
abbrev pub added : Output → ℕ → List ℕ
added out ch =
    if not (is_empty out.buf) then decode_utf8 out.buf else if out.ret == 0 then ch ∷ [] else []

-- The first code points of the composition, all but as many as the engine takes back.
abbrev pub kept : Output → List ℕ → List ℕ
kept out composition = take (length composition - out.backs) composition

pub typed_composition-kept :
    (out : Output) (ch : ℕ) (composition : List ℕ)
    → typed_composition out ch composition ≡ kept out composition ++ added out ch
unfolding typed_composition append_utf8
typed_composition-kept out ch composition =
    rw pop_backs-take (tail (is_empty out.buf) (out.ret == 0))
  where
    tail :
        (e r : Bool)
        → (if not e
            then kept out composition ++ decode_utf8 out.buf
            else if r
            then kept out composition ++ ch ∷ []
            else kept out composition)
          ≡ kept out composition
            ++ (if not e then decode_utf8 out.buf else if r then ch ∷ [] else [])
    tail true true = refl
    tail true false = sym (append-nil (kept out composition))
    tail false true = refl
    tail false false = refl

abbrev pub span_call : List ℕ → List HostCall
span_call composition =
    let text = codepoints_to_u16 composition in
    set_composition text (record { start = 0; end = length text; style = none_style } ∷ [])
      (length text)
    ∷ []

abbrev pub flush_call : List ℕ → List HostCall
flush_call composition =
    if is_empty composition then [] else commit_text (codepoints_to_u16 composition) ∷ []
