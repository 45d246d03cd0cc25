-- ===== src/Datastore/File/Lines.antt =====
-- A line of a value file, written as the documents say, is read back by simulator/datastore.py.
use e3on_canserver.Base.{
  ok, ℕ, ◌+◌, ◌*◌, ◌/◌, ◌%◌, ◌≤◌, ◌<◌, ◌≡◌, refl, sym, ap, ◌∙◌, subst, true, false, ◌&&◌, some,
  List, [], ◌∷◌, ◌++◌, map, append-nil, append_assoc, arith, ltb, ◌==◌, if◌then◌else◌, ==-false,
  length, All, length-append,
}
use e3on_canserver.Base.Int.{pos}
use e3on_canserver.Isotp.{Bytes}
use e3on_canserver.Isotp.Robust.{IsByte}
use e3on_canserver.Datastore.File.{
  Text, hash_sign, is_space, lstrip, rstrip_step, rstrip, strip, split_words, digit_value,
  int_digits, int_unsigned, int_of, as_byte, hex_bytes, pairs, data_words, parse_parts, parse_line,
}

-- Decimal digits and their number.
abbrev pub decimal : List ℕ → Text
decimal = map (λ d. 48 + d)

abbrev pub decimal_value : ℕ → List ℕ → ℕ
decimal_value acc [] = acc
decimal_value acc (d ∷ ds) = decimal_value (acc * 10 + d) ds

-- Two hexadecimal digits for each byte, without delimiters.
unfoldable pub hex_char : ℕ → ℕ
hex_char d = if ltb d 10 then 48 + d else 87 + d

abbrev pub hex_word : ℕ → Text
hex_word b = hex_char (b / 16) ∷ hex_char (b % 16) ∷ []

abbrev pub hex_text : Bytes → Text
hex_text [] = []
hex_text (b ∷ bs) = hex_char (b / 16) ∷ hex_char (b % 16) ∷ hex_text bs

abbrev IsVisible : ℕ → Type 0
IsVisible c = is_space c ≡ false

decimal-IsVisible : (ds : List ℕ) → All (λ d. d < 10) ds → All IsVisible (decimal ds)
unfolding is_space
decimal-IsVisible [] h = tt
decimal-IsVisible (d ∷ ds) h = (let lt : d < 10 = h.0 in ground arith, decimal-IsVisible ds h.1)

hex_char-IsVisible : (d : ℕ) → d < 16 → IsVisible (hex_char d)
unfolding is_space hex_char
hex_char-IsVisible d h = ground arith

hex_text-IsVisible : (bs : Bytes) → All IsByte bs → All IsVisible (hex_text bs)
hex_text-IsVisible [] h = tt
hex_text-IsVisible (b ∷ bs) h =
    let lt : b < 256 = h.0 in
    (
      hex_char-IsVisible (b / 16) (omega arith),
      (hex_char-IsVisible (b % 16) (omega arith), hex_text-IsVisible bs h.1),
    )

-- Nothing is stripped off a line whose first and last characters are visible.
rstrip_step_lem : (c : ℕ) (cs : Text) → 1 ≤ length cs → rstrip_step c cs ≡ c ∷ cs
rstrip_step_lem c [] h = absurd (omega arith)
rstrip_step_lem c (d ∷ ds) h = refl

rstrip_visible : (cs : Text) → All IsVisible cs → rstrip cs ≡ cs
unfolding rstrip
rstrip_visible [] h = refl
rstrip_visible (c ∷ []) h = rw h.0
rstrip_visible (c ∷ d ∷ ds) h = rw (rstrip_visible (d ∷ ds) h.1)

rstrip-append : (cs ds : Text) → All IsVisible ds → 1 ≤ length ds → rstrip (cs ++ ds) ≡ cs ++ ds
unfolding rstrip
rstrip-append [] ds h n = rstrip_visible ds h
rstrip-append (c ∷ cs) ds h n =
    rw (rstrip-append cs ds h n) (rstrip_step_lem c (cs ++ ds) (omega (arith, length-append cs ds)))

-- A word is read to its end.
split_words_lem :
    (word w rest : Text)
    → All IsVisible w
    → split_words word (w ++ rest) ≡ split_words (word ++ w) rest
unfolding split_words
split_words_lem word [] rest h = rw append-nil
split_words_lem word (c ∷ cs) rest h =
    rw (h.0, split_words_lem (word ++ (c ∷ [])) cs rest h.1, append_assoc)

split_two :
    (c d : ℕ) (cs ds : Text)
    → All IsVisible (c ∷ cs)
    → All IsVisible (d ∷ ds)
    → split_words [] ((c ∷ cs) ++ (32 ∷ d ∷ ds)) ≡ (c ∷ cs) ∷ (d ∷ ds) ∷ []
split_two c d cs ds h k =
    let second : split_words [] (d ∷ ds) ≡ (d ∷ ds) ∷ [] =
      ap (split_words []) (sym (append-nil (d ∷ ds)))
      ∙ (split_words_lem [] (d ∷ ds) [] k ∙ (unfold split_words in refl)) in
    split_words_lem [] (c ∷ cs) (32 ∷ d ∷ ds) h ∙ (unfold split_words is_space in rw second)

int_digits-decimal :
    (acc : ℕ) (ds : List ℕ)
    → All (λ d. d < 10) ds
    → int_digits 10 acc true (decimal ds) ≡ ok (decimal_value acc ds)
unfolding int_digits
int_digits-decimal acc [] h = refl
int_digits-decimal acc (d ∷ ds) h =
    let lt : d < 10 = h.0 in
    let v : digit_value (48 + d) ≡ d = unfold digit_value in ground arith in
    let t : ltb d 10 ≡ true = ground arith in rw (v, t, int_digits-decimal (acc * 10 + d) ds h.1)

int_unsigned-decimal :
    (ds : List ℕ)
    → 1 ≤ length ds
    → All (λ d. d < 10) ds
    → int_unsigned 10 (decimal ds) ≡ int_digits 10 0 false (decimal ds)
unfolding int_unsigned
int_unsigned-decimal [] n h = absurd (omega arith)
int_unsigned-decimal (d ∷ []) n h = refl
int_unsigned-decimal (d ∷ e ∷ ds) n h = refl

int_of-decimal :
    (d : ℕ) (ds : List ℕ)
    → All (λ d. d < 10) (d ∷ ds)
    → int_of 10 (decimal (d ∷ ds)) ≡ ok (pos (decimal_value 0 (d ∷ ds)))
unfolding int_of int_digits
int_of-decimal d ds h =
    let lt : d < 10 = h.0 in
    let v : digit_value (48 + d) ≡ d = unfold digit_value in ground arith in
    let t : ltb d 10 ≡ true = ground arith in
    let minus : ((48 + d) == 0x2d) ≡ false = ==-false (48 + d) 0x2d (omega arith) in
    let plus : ((48 + d) == 0x2b) ≡ false = ==-false (48 + d) 0x2b (omega arith) in
    rw (minus, plus, int_unsigned-decimal (d ∷ ds) (omega arith) h, int_digits)
      (rw (v, t, int_digits-decimal (0 * 10 + d) ds h.1))

-- The two hexadecimal digits of a byte.
digit_value-hex_char : (d : ℕ) → d < 16 → digit_value (hex_char d) ≡ d
unfolding digit_value hex_char
digit_value-hex_char d h = ground arith

hex_char_plain :
    (d : ℕ)
    → d < 16
    → ((hex_char d == 0x2d) ≡ false)
      × ((hex_char d == 0x2b) ≡ false)
      × ((hex_char d == 0x78) ≡ false)
      × ((hex_char d == 0x58) ≡ false)
      × ((hex_char d == hash_sign) ≡ false)
unfolding hex_char
hex_char_plain d h = ground arith

int_of-hex_word : (b : ℕ) → b < 256 → int_of 16 (hex_word b) ≡ ok (pos b)
unfolding int_of int_unsigned int_digits
int_of-hex_word b h =
    let hi : b / 16 < 16 = omega arith in
    let lo : b % 16 < 16 = omega arith in
    let t : ltb (b / 16) 16 ≡ true = ground arith in
    let t' : ltb (b % 16) 16 ≡ true = ground arith in
    let plain = hex_char_plain (b / 16) hi in
    let plain' = hex_char_plain (b % 16) lo in
    let value : (0 * 16 + b / 16) * 16 + b % 16 ≡ b = omega arith in
    let no_prefix : ((hex_char (b / 16) == 0x30) && false) ≡ false = ground arith in
    rw (plain.0, plain.1, plain'.2, plain'.3, no_prefix)
      (rw (digit_value-hex_char (b / 16) hi, digit_value-hex_char (b % 16) lo, t, t', value))

hex_bytes-pairs : (bs : Bytes) → All IsByte bs → hex_bytes (pairs (hex_text bs)) ≡ ok bs
unfolding hex_bytes pairs
hex_bytes-pairs [] h = refl
hex_bytes-pairs (b ∷ bs) h =
    let t : ltb b 256 ≡ true = (let lt : b < 256 = h.0 in ground arith) in
    rw (int_of-hex_word b h.0) (unfold as_byte in rw (t, hex_bytes-pairs bs h.1))

-- A line of a decimal identifier, a space, and the bytes as undelimited pairs of hexadecimal
-- digits, at least one byte of them, is read as that identifier and those bytes.
pub parse_line-hex :
    (d b : ℕ) (ds : List ℕ) (bs : Bytes)
    → All (λ d. d < 10) (d ∷ ds)
    → All IsByte (b ∷ bs)
    → parse_line (decimal (d ∷ ds) ++ (32 ∷ hex_text (b ∷ bs)))
      ≡ ok (some (pos (decimal_value 0 (d ∷ ds)), b ∷ bs))
unfolding parse_line
parse_line-hex d b ds bs h k =
    let visible : All IsVisible (decimal (d ∷ ds)) = decimal-IsVisible (d ∷ ds) h in
    let text : All IsVisible (hex_text (b ∷ bs)) = hex_text-IsVisible (b ∷ bs) k in
    let line : Text = decimal (d ∷ ds) ++ (32 ∷ hex_text (b ∷ bs)) in
    let front : lstrip line ≡ line = unfold lstrip in rw visible.0 in
    let back : rstrip line ≡ line =
      subst (λ l. rstrip l ≡ l) (append_assoc (decimal (d ∷ ds)) (32 ∷ []) (hex_text (b ∷ bs)))
        (rstrip-append (decimal (d ∷ ds) ++ (32 ∷ [])) (hex_text (b ∷ bs)) text (omega arith)) in
    let stripped : strip line ≡ line = unfold strip in ap rstrip front ∙ back in
    let comment : ((48 + d) == hash_sign) ≡ false = ==-false (48 + d) hash_sign (omega arith) in
    rw
      (
        stripped,
        parse_line,
        comment,
        split_two (48 + d) (hex_char (b / 16)) (decimal ds) _ visible text,
      )
      (unfold parse_parts data_words in
        rw (int_of-decimal d ds h) (rw (hex_bytes-pairs (b ∷ bs) k)))
