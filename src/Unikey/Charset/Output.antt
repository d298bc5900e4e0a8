-- ===== src/Unikey/Charset/Output.antt =====
-- What `putChar` writes into the caller's array.
use chromiumos_devenv.Common.{
  ℕ, zero, suc, ◌-◌, ◌%◌, ◌≤◌, ◌<◌, ◌≡◌, refl, sym, ap, ◌∙◌, subst, Bool, true, false, ◌&&◌, List,
  [], ◌∷◌, ◌++◌, append_assoc, append-nil, Option, none, some, Bytes, arith, length, take, ltb, leb,
  get_elem?, if◌then◌else◌, Outcome, returns, ◌>>=◌, map,
}
use chromiumos_devenv.Unikey.Utf8.{put_utf8, encode_utf8, append_utf8}
use chromiumos_devenv.Unikey.Utf8.RoundTrip.{AllBelow, append_utf8-encode_utf8}
use chromiumos_devenv.Unikey.Charset.Tables.{lexi_to_unicode}
use chromiumos_devenv.Unikey.Charset.{
  StringBoStream, start_stream, put_char, code_point, entry_or, is_lexi_index,
}
use chromiumos_devenv.Unikey.Charset.Writing.{
  Fits, Holds, has_array, Written, put_bytes-Written, take-take, take-all,
}

-- The characters one after the other, as the vendored engine puts out a word.
pub put_chars : List ℕ → StringBoStream → Outcome StringBoStream
put_chars [] os = returns os
put_chars (ch ∷ chs) os = do r ← put_char ch os; put_chars chs r.0

put_chars-Written :
    {given : Bool} (chs : List ℕ) (bs : Bytes) (max : ℕ) (os : StringBoStream)
    → Written given max bs os
    → (os' : StringBoStream) × (put_chars chs os ≡ returns os')
      × Written given max (bs ++ encode_utf8 (map code_point chs)) os'
unfolding put_chars put_char encode_utf8
put_chars-Written {given} [] bs max os w =
    (os, refl, subst (λ xs. Written given max xs os) (sym (append-nil bs)) w)
put_chars-Written {given} (ch ∷ chs) bs max os w =
    let own = put_utf8 (code_point ch) in
    let (os', e, w') = put_bytes-Written own bs max os w in
    let (os'', es, w'') = put_chars-Written chs (bs ++ own) max os' w' in
    (
      os'',
      rw e es,
      subst (λ xs. Written given max xs os'')
          (append_assoc bs own (encode_utf8 (map code_point chs))) w'',
    )

started :
    (array : Option Bytes) (max : ℕ)
    → Fits array max
    → Written (has_array array) max [] (start_stream array max)
started none max room = record {
  kept = refl;
  same_max = refl;
  counted = refl;
  room = tt;
  holds = tt;
}
started (some b) max room = record {
  kept = refl;
  same_max = refl;
  counted = refl;
  room = room;
  holds = refl;
}

-- A stream that is started on an array with room for its size, or on none, takes any characters: the
-- calls write nothing outside the array, the count of bytes is that of their UTF-8, whether there
-- is an array or not, and the array holds as much of their UTF-8 as the size allows.
pub put_chars-returns :
    (chs : List ℕ) (array : Option Bytes) (max : ℕ)
    → Fits array max
    → (os : StringBoStream) × (put_chars chs (start_stream array max) ≡ returns os)
      × (os.n ≡ length (encode_utf8 (map code_point chs)))
      × Holds os.buf max (encode_utf8 (map code_point chs))
put_chars-returns chs array max room =
    let (os, e, w) =
      put_chars-Written chs [] max (start_stream array max) (started array max room) in
    (os, e, w.counted, w.holds)

all_small : List ℕ → Bool
all_small [] = true
all_small (x ∷ xs) = ltb x 0x200000 && all_small xs

entry-small : (xs : List ℕ) (i : ℕ) → all_small xs ≡ true → entry_or 0 (get_elem? xs i) < 0x200000
unfolding all_small
entry-small [] i h = omega arith
entry-small (x ∷ xs) zero h = ground arith
entry-small (x ∷ xs) (suc i) h = entry-small xs i (ground arith)

lexi-small : all_small lexi_to_unicode ≡ true
unfolding all_small
lexi-small = refl

code_point-small : (ch : ℕ) → code_point ch < 0x200000
unfolding code_point
code_point-small ch =
    each (leb 0x10000 ch) (is_lexi_index (ch - 0x10000))
      (entry_or 0 (get_elem? lexi_to_unicode (ch - 0x10000))) ch
      (entry-small lexi_to_unicode (ch - 0x10000) lexi-small)
  where
    each :
        (vietnamese known : Bool) (e c : ℕ)
        → e < 0x200000
        → (if vietnamese then (if known then e else 0xFFFD) else c % 256) < 0x200000
    each true true e c h = h
    each true false e c h = omega arith
    each false known e c h = omega arith

code_points-AllBelow : (chs : List ℕ) → AllBelow 0x200000 (map code_point chs)
code_points-AllBelow [] = tt
code_points-AllBelow (ch ∷ chs) = (code_point-small ch, code_points-AllBelow chs)

-- The array holds the UTF-8 in full, if it fits.
Holds-all :
    (b bs : Bytes) (max n : ℕ)
    → n ≡ length bs
    → length bs ≤ max
    → Holds (some b) max bs
    → take n b ≡ bs
Holds-all b bs max n e le h =
    ap (λ k. take k b) e ∙ sym (take-take max (length bs) b le) ∙ h ∙ take-all max bs le

-- The adapter reads back what the engine puts out: if the UTF-8 of the characters fits into the
-- size, and the size into the array, then `AppendUtf8` on the bytes that were counted appends the
-- code points of the characters.
pub append_utf8-put_chars :
    (chs : List ℕ) (b : Bytes) (max : ℕ) (out : List ℕ)
    → max ≤ length b
    → length (encode_utf8 (map code_point chs)) ≤ max
    → (os : StringBoStream) × (b' : Bytes) × (put_chars chs (start_stream (some b) max)
        ≡ returns os)
      × (os.buf ≡ some b')
      × (append_utf8 (take os.n b') out ≡ out ++ map code_point chs)
append_utf8-put_chars chs b max out room fits =
    let (os, e, w) =
      put_chars-Written chs [] max (start_stream (some b) max) (started (some b) max room) in
    let (b', eb) = array_of os.buf w.kept in
    (
      os,
      b',
      e,
      eb,
      ap (λ (bs : Bytes). append_utf8 bs out)
            (Holds-all b' (encode_utf8 (map code_point chs)) max os.n w.counted fits (
              subst (λ (a : Option Bytes). Holds a max (encode_utf8 (map code_point chs))) eb
                w.holds))
          ∙ append_utf8-encode_utf8 (map code_point chs) out (code_points-AllBelow chs),
    )
  where
    array_of : (a : Option Bytes) → has_array a ≡ true → (x : Bytes) × (a ≡ some x)
    array_of none h = cc
    array_of (some x) h = (x, refl)
