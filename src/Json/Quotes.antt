-- ===== src/Json/Quotes.antt =====
-- Which texts survive `%q` of fmt and the scanner of encoding/json.
use mathlib.Core.Option.{map as map_option}
use mathlib.Core.List.{append_assoc, append-nil}
use async_task_orchestrator.Prelude.{
  ℕ, ◌≤◌, ◌==◌, ltb, Bool, true, false, Bool-cases, ◌&&◌, ◌||◌, not, ◌≡◌, ◌≢◌, inl, inr, refl, sym,
  ap, ◌∙◌, arith, none, some, List, [], ◌∷◌, ◌++◌, All, if◌then◌else◌, Text, ==_iff, IsRune, map,
}
use async_task_orchestrator.Task.Body.{hex2, hex8, short_escape, quote_rune, quote_runes, quoted}
use async_task_orchestrator.Json.Lexer.{
  in_string, in_escape, between, string, Part, rune, unit, unescape, after_escape, react, lex,
  joined, is_high, is_low, lone,
}
use async_task_orchestrator.Json.Strings.{
  lex-silent, lex-emit, lex-stuck, Eats, Eats-plain, Eats-escape, Eats-hex4, Eats-append,
}

module _ (is_print : ℕ → Bool) where
  -- The code points whose form under `%q` is JSON: below the space those with a short escape that
  -- JSON has too, not DEL, and above 65535 the printable ones.
  unfoldable pub carried : ℕ → Bool
  carried c =
      if ltb c 32
      then (c == 8) || (c == 9) || (c == 10) || (c == 12) || (c == 13)
      else not (c == 127) && (ltb c 65536 || is_print c)

  unfoldable pub all_carried : Text → Bool
  unfolding carried
  all_carried [] = true
  all_carried (c ∷ s) = carried c && all_carried s

  -- How it stands in the JSON string.
  unfoldable part_of : ℕ → Part
  part_of c = if ltb 127 c && not (is_print c) then unit c else rune c

  part_of-ascii : (c : ℕ) → c ≤ 127 → part_of c ≡ rune c
  unfolding part_of
  part_of-ascii c h = ground arith

  unescape_same : (c : ℕ) → ((c == 34) || (c == 92)) ≡ true → unescape c ≡ some c
  unfolding unescape
  unescape_same c h = ground arith

  part_of-printed : (c : ℕ) → (ltb 127 c && is_print c) ≡ true → part_of c ≡ rune c
  unfolding part_of
  part_of-printed c h = ground arith

  part_of-short : (c : ℕ) → ltb 0 (short_escape c) ≡ true → part_of c ≡ rune c
  unfolding part_of short_escape
  part_of-short c h = ground arith

  short-ne-u : (c : ℕ) → short_escape c ≢ b'u'
  unfolding short_escape
  short-ne-u c h = ground arith

  short_same :
      (c : ℕ)
      → carried c ≡ true
      → ltb 0 (short_escape c) ≡ true
      → unescape (short_escape c) ≡ some c
  unfolding carried short_escape unescape
  short_same c h k = ground arith

  -- What is left is neither printable nor a control character: it is written with `\u`.
  abbrev Hidden : ℕ → Type 0
  Hidden c = ((ltb c 32 || (c == 127)) ≡ false) × (ltb c 65536 ≡ true) × (part_of c ≡ unit c)

  hidden :
      (c : ℕ)
      → carried c ≡ true
      → (ltb 31 c && ltb c 127) ≡ false
      → (ltb 127 c && is_print c) ≡ false
      → ltb 0 (short_escape c) ≡ false
      → Hidden c
  unfolding carried short_escape part_of
  hidden c h k l m = (ground arith, ground arith, ground arith)

  quote_rune-Eats :
      (ps : List Part) (c : ℕ)
      → carried c ≡ true
      → Eats (in_string ps) (quote_rune is_print c) (in_string (ps ++ part_of c ∷ []))
  unfolding quote_rune carried
  quote_rune-Eats ps c h = elim (Bool-cases ((c == 34) || (c == 92))) [
    | inl quote ↦
        rw (quote, part_of-ascii c (ground arith))
          (Eats-escape ps c c (ground arith) (unescape_same c quote))
    | inr other ↦ elim (Bool-cases (ltb 31 c && ltb c 127)) [
      | inl plain ↦
          rw (other, plain, part_of-ascii c (ground arith))
            (Eats-plain ps c (ground arith) (ground arith) (ground arith))
      | inr not_plain ↦ elim (Bool-cases (ltb 127 c && is_print c)) [
        | inl printed ↦
            rw (other, not_plain, printed, part_of-printed c printed)
              (Eats-plain ps c (ground arith) (ground arith) (ground arith))
        | inr not_printed ↦ elim (Bool-cases (ltb 0 (short_escape c))) [
          | inl short ↦
              rw (other, not_plain, not_printed, short, part_of-short c short)
                (Eats-escape ps (short_escape c) c (short-ne-u c) (short_same c h short))
          | inr long ↦
              let (visible, small, part) = hidden c h not_plain not_printed long in
              rw (other, not_plain, not_printed, long, visible, small, part)
                (Eats-hex4 ps c (ground arith))
        ]
      ]
    ]
  ]

  quote_runes-Eats :
      (t : Text) (ps : List Part)
      → all_carried t ≡ true
      → Eats (in_string ps) (quote_runes is_print t) (in_string (ps ++ map part_of t))
  unfolding quote_runes all_carried
  quote_runes-Eats [] ps h rest = ap (λ qs. lex (in_string qs) rest) (sym (append-nil ps))
  quote_runes-Eats (c ∷ t) ps h rest =
      Eats-append (in_string ps) (in_string (ps ++ part_of c ∷ [])) _ (quote_rune is_print c)
        (quote_runes is_print t) (quote_rune-Eats ps c (ground arith))
        (quote_runes-Eats t (ps ++ part_of c ∷ []) (ground arith)) rest
      ∙ ap (λ qs. lex (in_string qs) rest) (append_assoc ps (part_of c ∷ []) (map part_of t))

  joined-parts : (t : Text) → All IsRune t → joined none (map part_of t) ≡ t
  unfolding joined part_of lone is_high is_low
  joined-parts [] h = refl
  joined-parts (c ∷ t) (r, h) = elim (Bool-cases (ltb 127 c && not (is_print c))) [
    | inl hex ↦ rw hex (ground (arith, joined-parts t h))
    | inr whole ↦ rw (whole, joined-parts t h)
  ]

  -- `%q` prints such a text as one string of JSON, and it is that text.
  pub quoted-lex :
      (t rest : Text)
      → all_carried t ≡ true
      → All IsRune t
      → lex between (quoted is_print t ++ rest)
        ≡ map_option (λ ts. string t ∷ ts) (lex between rest)
  unfolding quoted react
  quoted-lex t rest h r =
      lex-silent between (in_string []) 34 _ refl
      ∙ ap (lex (in_string [])) (append_assoc (quote_runes is_print t) (34 ∷ []) rest)
      ∙ quote_runes-Eats t [] h (34 ∷ rest)
      ∙ lex-emit (in_string (map part_of t)) between 34 (string t) rest
          (ap (λ u. some (between, string u ∷ [])) (joined-parts t r))

  -- The first two code points of the form that JSON refuses.
  abbrev Refused : ℕ → Type 0
  Refused c =
      (e : ℕ) × (s : Text) × (quote_rune is_print c ≡ 92 ∷ e ∷ s) × (e ≢ b'u') × (unescape e ≡ none)

  carried-large :
      (c : ℕ)
      → carried c ≡ false
      → (ltb c 32 || (c == 127)) ≡ false
      → (65536 ≤ c) × (is_print c ≡ false)
  unfolding carried
  carried-large c h k = (ground arith, ground arith)

  short_escape-large : (c : ℕ) → 65536 ≤ c → short_escape c ≡ 0
  unfolding short_escape
  short_escape-large c h = ground arith

  quote_rune-large :
      (c : ℕ) → 65536 ≤ c → is_print c ≡ false → quote_rune is_print c ≡ 92 ∷ b'U' ∷ hex8 c
  unfolding quote_rune
  quote_rune-large c h k = ground (arith, short_escape-large c)

  short_escape-control :
      (c : ℕ)
      → carried c ≡ false
      → (c == 7) ≡ false
      → (c == 11) ≡ false
      → (ltb c 32 || (c == 127)) ≡ true
      → short_escape c ≡ 0
  unfolding carried short_escape
  short_escape-control c h k l m = ground arith

  quote_rune-control :
      (c : ℕ)
      → (ltb c 32 || (c == 127)) ≡ true
      → short_escape c ≡ 0
      → quote_rune is_print c ≡ 92 ∷ b'x' ∷ hex2 c
  unfolding quote_rune
  quote_rune-control c h k =
      let a : ((c == 34) || (c == 92)) ≡ false = ground arith in
      let b : (ltb 31 c && ltb c 127) ≡ false = ground arith in
      let d : (ltb 127 c && is_print c) ≡ false = ground arith in
      let z : ltb 0 (short_escape c) ≡ false = rw k refl in rw (a, b, d, z, h)

  quote_rune-Refused : (c : ℕ) → carried c ≡ false → Refused c
  unfolding quote_rune short_escape unescape
  quote_rune-Refused c h = elim (Bool-cases (c == 7)) [
    | inl bell ↦ (b'a', [], rw ((==_iff c 7).0 bell) refl, omega arith, refl)
    | inr other ↦ elim (Bool-cases (c == 11)) [
      | inl tab ↦ (b'v', [], rw ((==_iff c 11).0 tab) refl, omega arith, refl)
      | inr control ↦ elim (Bool-cases (ltb c 32 || (c == 127))) [
        | inl low ↦
            let none_short = short_escape-control c h other control low in
            (b'x', hex2 c, quote_rune-control c low none_short, omega arith, refl)
        | inr high ↦
            let (large, hidden) = carried-large c h high in
            (b'U', hex8 c, quote_rune-large c large hidden, omega arith, refl)
      ]
    ]
  ]

  refused :
      (ps : List Part) (c : ℕ) (rest : Text)
      → Refused c
      → lex (in_string ps) (quote_rune is_print c ++ rest) ≡ none
  unfolding react after_escape
  refused ps c rest (e, s, form, k, l) =
      ap (λ u. lex (in_string ps) (u ++ rest)) form
      ∙ lex-silent (in_string ps) (in_escape ps) 92 (e ∷ s ++ rest) refl
      ∙ lex-stuck (in_escape ps) e (s ++ rest) (ground arith)

  quote_runes-stuck :
      (t : Text) (ps : List Part) (rest : Text)
      → all_carried t ≡ false
      → lex (in_string ps) (quote_runes is_print t ++ rest) ≡ none
  unfolding quote_runes all_carried
  quote_runes-stuck [] ps rest h = cc
  quote_runes-stuck (c ∷ t) ps rest h =
      ap (lex (in_string ps)) (append_assoc (quote_rune is_print c) (quote_runes is_print t) rest)
      ∙ elim (Bool-cases (carried c)) [
        | inl good ↦
            quote_rune-Eats ps c good (quote_runes is_print t ++ rest)
            ∙ quote_runes-stuck t (ps ++ part_of c ∷ []) rest (rw good at h)
        | inr bad ↦ refused ps c (quote_runes is_print t ++ rest) (quote_rune-Refused c bad)
      ]

  -- Any other text makes the message no JSON.
  pub quoted-stuck :
      (t rest : Text) → all_carried t ≡ false → lex between (quoted is_print t ++ rest) ≡ none
  unfolding quoted react
  quoted-stuck t rest h =
      lex-silent between (in_string []) 34 _ refl
      ∙ ap (lex (in_string [])) (append_assoc (quote_runes is_print t) (34 ∷ []) rest)
      ∙ quote_runes-stuck t [] (34 ∷ rest) h
