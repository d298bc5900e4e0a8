-- ===== src/Unikey/Utf8/RoundTrip.antt =====
-- The decoder reads back what the encoder writes.
use chromiumos_devenv.Common.{
  ℕ, zero, suc, ◌+◌, ◌-◌, ◌/◌, ◌%◌, ◌≤◌, ◌<◌, ◌≡◌, refl, ap, ◌∙◌, bit_or, List, [], ◌∷◌, ◌++◌,
  Bytes, arith, length, length-append, take, drop,
}
use chromiumos_devenv.Unikey.Utf8.{
  put_utf8, encode_utf8, sequence_length, lead_bits, add_bits, decode_from, decode_utf8,
  append_utf8,
}

-- The lead byte of four: its low three bits are free.
four_byte_lead : (x : ℕ) → x < 8 → bit_or 0xF0 x % 256 ≡ 0xF0 + x
four_byte_lead zero h = refl
four_byte_lead (suc zero) h = refl
four_byte_lead (suc (suc zero)) h = refl
four_byte_lead (suc (suc (suc zero))) h = refl
four_byte_lead (suc (suc (suc (suc zero)))) h = refl
four_byte_lead (suc (suc (suc (suc (suc zero))))) h = refl
four_byte_lead (suc (suc (suc (suc (suc (suc zero)))))) h = refl
four_byte_lead (suc (suc (suc (suc (suc (suc (suc zero))))))) h = refl
four_byte_lead (suc (suc (suc (suc (suc (suc (suc (suc x)))))))) h = absurd (omega arith)

-- Every code point up to 0x1FFFFF has a sequence of its own.
decode_from-put_utf8 :
    (cp fuel : ℕ) (rest : Bytes)
    → cp < 0x200000
    → decode_from (suc fuel) (put_utf8 cp ++ rest) ≡ cp ∷ decode_from fuel rest
unfolding decode_from put_utf8
decode_from-put_utf8 cp fuel rest h = ground (arith, four_byte_lead (cp / 262144))

abbrev pub AllBelow : ℕ → List ℕ → Type 0
AllBelow n [] = Unit {0}
AllBelow n (x ∷ xs) = (x < n) × AllBelow n xs

put_utf8-nonempty : (cp : ℕ) → 1 ≤ length (put_utf8 cp)
unfolding put_utf8
put_utf8-nonempty cp = ground arith

length-encode_utf8 : (cps : List ℕ) → length cps ≤ length (encode_utf8 cps)
unfolding encode_utf8
length-encode_utf8 [] = omega arith
length-encode_utf8 (cp ∷ cps) = omega (
  arith,
  length-append (put_utf8 cp) (encode_utf8 cps),
  put_utf8-nonempty cp,
  length-encode_utf8 cps,
)

decode_from-encode_utf8 :
    (cps : List ℕ) (fuel : ℕ)
    → AllBelow 0x200000 cps
    → length cps ≤ fuel
    → decode_from fuel (encode_utf8 cps) ≡ cps
unfolding encode_utf8
decode_from-encode_utf8 [] zero small h = unfold decode_from in refl
decode_from-encode_utf8 [] (suc fuel) small h = unfold decode_from in refl
decode_from-encode_utf8 (cp ∷ cps) zero small h = absurd (omega arith)
decode_from-encode_utf8 (cp ∷ cps) (suc fuel) small h =
    decode_from-put_utf8 cp fuel (encode_utf8 cps) small.0
    ∙ ap (◌∷◌ cp) (decode_from-encode_utf8 cps fuel small.1 (omega arith))

-- The adapter reads back the code points that the UTF-8 emitter wrote: for code points below
-- 0x200000, all of Unicode among them, `AppendUtf8` on their bytes appends exactly those.
pub append_utf8-encode_utf8 :
    (cps out : List ℕ) → AllBelow 0x200000 cps → append_utf8 (encode_utf8 cps) out ≡ out ++ cps
unfolding append_utf8 decode_utf8
append_utf8-encode_utf8 cps out small =
    ap (λ l. out ++ l)
      (decode_from-encode_utf8 cps (length (encode_utf8 cps)) small (length-encode_utf8 cps))

length-drop-le : (n : ℕ) (b : Bytes) → length (drop n b) ≤ length b
length-drop-le zero b = omega arith
length-drop-le (suc n) [] = omega arith
length-drop-le (suc n) (x ∷ b) = omega (arith, length-drop-le n b)

-- A round takes a byte at least, whatever the lead byte.
next_round : (x : ℕ) (b : Bytes) → length (drop (sequence_length x) (x ∷ b)) < length (x ∷ b)
next_round x b = past (sequence_length x) (some_byte x)
  where
    some_byte : (c : ℕ) → 1 ≤ sequence_length c
    some_byte c = unfold sequence_length in ground arith

    past : (n : ℕ) → 1 ≤ n → length (drop n (x ∷ b)) < length (x ∷ b)
    past zero h = absurd (omega arith)
    past (suc n) h = omega (arith, length-drop-le n b)

decode_from-enough :
    (f g : ℕ) (b : Bytes) → length b ≤ f → length b ≤ g → decode_from f b ≡ decode_from g b
unfolding decode_from
decode_from-enough zero zero [] hf hg = refl
decode_from-enough zero (suc g) [] hf hg = refl
decode_from-enough (suc f) zero [] hf hg = refl
decode_from-enough (suc f) (suc g) [] hf hg = refl
decode_from-enough zero g (x ∷ b) hf hg = absurd (omega arith)
decode_from-enough (suc f) zero (x ∷ b) hf hg = absurd (omega arith)
decode_from-enough (suc f) (suc g) (x ∷ b) hf hg =
    let len = sequence_length x in
    let less = next_round x b in
    ap (◌∷◌ (add_bits (lead_bits x) (take (len - 1) b)))
      (decode_from-enough f g (drop len (x ∷ b)) (omega arith) (omega arith))

-- On any bytes at all, malformed ones too, the loop of `AppendUtf8` reaches the end within as many
-- rounds as there are bytes, since the length of no sequence is 0: allowing more rounds gives the
-- same code points.
pub decode_from-fuel :
    (fuel more : ℕ) (b : Bytes) → length b ≤ fuel → decode_from (fuel + more) b ≡ decode_from fuel b
decode_from-fuel fuel more b h = decode_from-enough (fuel + more) fuel b (omega arith) h
