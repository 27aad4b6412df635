-- ===== src/Ssr/Escape/Json.antt =====
-- `escapeJson` against the three replacements of the client.
pub mod Sequence
use Sequence.{backslash, NoBackslash, replace_from_free_all, unescape_same, unescape_other}
use luna_mbt.Js.Text.{js, starts_with, replace_char, replace_text}
use luna_mbt.Prelude.{◌≡◌, refl, [], ◌∷◌, arith, Text}
use luna_mbt.Ssr.Escape.{escape_json, unescape_state}

abbrev lt_digits : Text
lt_digits = js "u003c"

abbrev gt_digits : Text
gt_digits = js "u003e"

abbrev amp_digits : Text
amp_digits = js "u0026"

-- The escapes of `<`, `>` and `&`, and their replacements, one by one.
abbrev write_lt : Text → Text
write_lt = replace_char b'<' (backslash ∷ lt_digits)

abbrev write_gt : Text → Text
write_gt = replace_char b'>' (backslash ∷ gt_digits)

abbrev write_amp : Text → Text
write_amp = replace_char b'&' (backslash ∷ amp_digits)

abbrev read_lt : Text → Text
read_lt = replace_text (backslash ∷ lt_digits) (b'<' ∷ [])

abbrev read_gt : Text → Text
read_gt = replace_text (backslash ∷ gt_digits) (b'>' ∷ [])

abbrev read_amp : Text → Text
read_amp = replace_text (backslash ∷ amp_digits) (b'&' ∷ [])

lt_same : (s : Text) → read_lt (write_lt s) ≡ read_lt s
lt_same s = unescape_same lt_digits b'<' (omega arith) (omega arith) s (omega arith)

gt_same : (s : Text) → read_gt (write_gt s) ≡ read_gt s
gt_same s = unescape_same gt_digits b'>' (omega arith) (omega arith) s (omega arith)

amp_same : (s : Text) → read_amp (write_amp s) ≡ read_amp s
amp_same s = unescape_same amp_digits b'&' (omega arith) (omega arith) s (omega arith)

lt_past_gt : (s : Text) → read_lt (write_gt s) ≡ write_gt (read_lt s)
unfolding starts_with
lt_past_gt s =
    unescape_other lt_digits gt_digits b'<' b'>' (omega arith) (omega arith) s (omega arith)
      (λ t. refl) (omega arith) (omega arith)

lt_past_amp : (s : Text) → read_lt (write_amp s) ≡ write_amp (read_lt s)
unfolding starts_with
lt_past_amp s =
    unescape_other lt_digits amp_digits b'<' b'&' (omega arith) (omega arith) s (omega arith)
      (λ t. refl) (omega arith) (omega arith)

gt_past_amp : (s : Text) → read_gt (write_amp s) ≡ write_amp (read_gt s)
unfolding starts_with
gt_past_amp s =
    unescape_other gt_digits amp_digits b'>' b'&' (omega arith) (omega arith) s (omega arith)
      (λ t. refl) (omega arith) (omega arith)

-- The client's replacements take back exactly the escapes that the server wrote: they give what
-- they would have given on the text that was never escaped.
pub unescape_state-escape_json : (s : Text) → unescape_state (escape_json s) ≡ unescape_state s
unfolding escape_json unescape_state
unescape_state-escape_json s = rw (
  lt_past_amp (write_gt (write_lt s)),
  lt_past_gt (write_lt s),
  lt_same s,
  gt_past_amp (write_gt (read_lt s)),
  gt_same (read_lt s),
  amp_same (read_gt (read_lt s)),
)

replace_text_free : (q rep s : Text) → NoBackslash s → replace_text (backslash ∷ q) rep s ≡ s
unfolding replace_text
replace_text_free q rep s h = replace_from_free_all q rep s h

-- A state whose JSON has no backslash comes back as it was.
pub unescape_state-escape_json_self :
    (s : Text) → NoBackslash s → unescape_state (escape_json s) ≡ s
unfolding unescape_state
unescape_state-escape_json_self s h = rw (
  unescape_state-escape_json s,
  replace_text_free lt_digits (b'<' ∷ []) s h,
  replace_text_free gt_digits (b'>' ∷ []) s h,
  replace_text_free amp_digits (b'&' ∷ []) s h,
)
