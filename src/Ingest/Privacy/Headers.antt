-- ===== src/Ingest/Privacy/Headers.antt =====
-- What `removeMailRoutingHeaders` of internal/ingest/privacy_redaction.go leaves of a mail.
use waldo.Base.{
  ℕ, suc, ◌<◌, ◌≡◌, refl, ap, ◌∙◌, Bool, true, false, not, ◌||◌, none, some, List, [], ◌∷◌, ◌++◌,
  count, length, ltb, take, drop, ◌==◌, if◌then◌else◌, arith, Bool-cases, inl, inr, All,
}
use waldo.Base.Bytes.{Bytes}
use waldo.Base.Strings.{before, index, split, join}
use waldo.Ingest.Privacy.{
  Library, is_continuation, is_routing, recognized, keep_loop, remove_headers, separator_of,
  remove_mail_routing_headers,
}

-- A header: its first line, and the lines that go on with it.
abbrev pub Header : Type 0
Header = Bytes × List Bytes

-- The lines of the headers.
abbrev pub lines_of : List Header → List Bytes
lines_of [] = []
lines_of ((first, more) ∷ headers) = first ∷ (more ++ lines_of headers)

abbrev pub IsContinued : Bytes → Type 0
IsContinued line = is_continuation line ≡ true

abbrev pub IsHeader : Header → Type 0
IsHeader (first, more) = (is_continuation first ≡ false) × All IsContinued more

-- Something stands before the first colon of the header.
abbrev pub has_name : Header → Bool
has_name (first, more) = elim (before first b':') [
  | none ↦ false
  | some name ↦ not (length name == 0)
]

-- The lines are those that go on with nothing, and those of headers.
grouped :
    (lines : List Bytes)
    → (leading : List Bytes) × (headers : List Header) × (lines ≡ leading ++ lines_of headers)
      × All IsContinued leading
      × All IsHeader headers
grouped [] = ([], [], refl, tt, tt)
grouped (line ∷ lines) =
    let (leading, headers, same, l, h) = grouped lines in
    elim (Bool-cases (is_continuation line)) [
      | inl c ↦ (line ∷ leading, headers, ap (λ ls. line ∷ ls) same, (c, l), h)
      | inr c ↦ ([], (line, leading) ∷ headers, ap (λ ls. line ∷ ls) same, tt, ((c, l), h))
    ]

recognized-continued :
    (more lines : List Bytes) → All IsContinued more → recognized (more ++ lines) ≡ recognized lines
unfolding recognized
recognized-continued [] lines h = refl
recognized-continued (line ∷ more) lines h = rw h.0 (recognized-continued more lines h.1)

recognized-lines_of :
    (headers : List Header)
    → All IsHeader headers
    → recognized (lines_of headers) ≡ count has_name headers
unfolding recognized
recognized-lines_of [] h = refl
recognized-lines_of ((first, more) ∷ headers) h =
    let rest =
      recognized-continued more (lines_of headers) h.0.1 ∙ recognized-lines_of headers h.1 in
    ground (arith, h.0.0, rest)

module _ (library : Library) where
  abbrev pub routes : Header → Bool
  routes (first, more) = is_routing library first

  -- The headers that say nothing of the routing.
  abbrev pub others : List Header → List Header
  others [] = []
  others (header ∷ headers) = if routes header then others headers else header ∷ others headers

  keep_continued :
      (dropping : Bool) (line : Bytes) (lines : List Bytes)
      → is_continuation line ≡ true
      → keep_loop library dropping (line ∷ lines) ≡ (
          if dropping
          then keep_loop library dropping lines
          else (line ∷ (keep_loop library dropping lines).0, (keep_loop library dropping lines).1))
  unfolding keep_loop
  keep_continued dropping line lines c = ground (arith, c)

  keep_routing :
      (dropping : Bool) (line : Bytes) (lines : List Bytes)
      → is_continuation line ≡ false
      → is_routing library line ≡ true
      → keep_loop library dropping (line ∷ lines)
        ≡ ((keep_loop library true lines).0, suc (keep_loop library true lines).1)
  unfolding keep_loop
  keep_routing dropping line lines c r = ground (arith, c, r)

  keep_other :
      (dropping : Bool) (line : Bytes) (lines : List Bytes)
      → is_continuation line ≡ false
      → is_routing library line ≡ false
      → keep_loop library dropping (line ∷ lines)
        ≡ (line ∷ (keep_loop library false lines).0, (keep_loop library false lines).1)
  unfolding keep_loop
  keep_other dropping line lines c r = ground (arith, c, r)

  keep_loop-dropped :
      (more lines : List Bytes)
      → All IsContinued more
      → keep_loop library true (more ++ lines) ≡ keep_loop library true lines
  keep_loop-dropped [] lines h = refl
  keep_loop-dropped (line ∷ more) lines h =
      keep_continued true line (more ++ lines) h.0 ∙ keep_loop-dropped more lines h.1

  keep_loop-kept :
      (more lines : List Bytes)
      → All IsContinued more
      → keep_loop library false (more ++ lines)
        ≡ (more ++ (keep_loop library false lines).0, (keep_loop library false lines).1)
  keep_loop-kept [] lines h = refl
  keep_loop-kept (line ∷ more) lines h =
      keep_continued false line (more ++ lines) h.0
      ∙ ap (λ (r : List Bytes × ℕ). (line ∷ r.0, r.1)) (keep_loop-kept more lines h.1)

  keep_loop-lines_of :
      (dropping : Bool) (headers : List Header)
      → All IsHeader headers
      → keep_loop library dropping (lines_of headers)
        ≡ (lines_of (others headers), count routes headers)
  keep_loop-lines_of dropping [] h = unfold keep_loop in refl
  keep_loop-lines_of dropping ((first, more) ∷ headers) h =
      elim (Bool-cases (is_routing library first)) [
        | inl r ↦
            keep_routing dropping first (more ++ lines_of headers) h.0.0 r
            ∙ ap (λ (r : List Bytes × ℕ). (r.0, suc r.1))
                (keep_loop-dropped more (lines_of headers) h.0.1
                  ∙ keep_loop-lines_of true headers h.1)
            ∙ rw r (ap (λ n. (lines_of (others headers), n)) (omega arith))
        | inr r ↦
            keep_other dropping first (more ++ lines_of headers) h.0.0 r
            ∙ ap (λ (r : List Bytes × ℕ). (first ∷ r.0, r.1))
                (keep_loop-kept more (lines_of headers) h.0.1
                  ∙ ap (λ (r : List Bytes × ℕ). (more ++ r.0, r.1))
                      (keep_loop-lines_of false headers h.1))
            ∙ rw r (ap (λ n. (first ∷ (more ++ lines_of (others headers)), n)) (omega arith))
      ]

  -- The line break of the headers: a CRLF, if one stands in them.
  abbrev pub newline_of : Bytes → Bytes
  newline_of header = elim (index header (13 ∷ 10 ∷ [])) [ none ↦ 10 ∷ [] | some k ↦ 13 ∷ 10 ∷ [] ]

  -- What is made of the text, of which the headers end at the separator.
  pub record IsCleaned (text : Bytes) (separator : ℕ) : Type 0 where
    pub leading : List Bytes
    pub headers : List Header
    pub lines_lem :
        split (take separator text) (newline_of (take separator text)) ≡ leading ++ lines_of headers
    pub leading_lem : All IsContinued leading
    pub headers_lem : All IsHeader headers
    pub result_lem : remove_mail_routing_headers library text ≡ (
        if ltb (count has_name headers) 2 || count routes headers == 0 then (text, 0) else (
          join (leading ++ lines_of (others headers)) (newline_of (take separator text))
              ++ drop separator text,
          count routes headers,
        ))

  -- What is made of the kept lines, and their number.
  abbrev outcome : Bytes → ℕ → ℕ → List Bytes × ℕ → Bytes × ℕ
  outcome text separator names kept =
      if ltb names 2 || kept.1 == 0
      then (text, 0)
      else (join kept.0 (newline_of (take separator text)) ++ drop separator text, kept.1)

  cleaned_lines :
      (text : Bytes) (separator : ℕ)
      → separator_of library text ≡ some separator
      → 0 < separator
      → remove_mail_routing_headers library text
        ≡ outcome text separator
            (recognized (split (take separator text) (newline_of (take separator text))))
            (keep_loop library false
              (split (take separator text) (newline_of (take separator text))))
  unfolding remove_mail_routing_headers remove_headers
  cleaned_lines text separator found h = ground (arith, found, h)

  -- The headers of a text end at its first CRLF CRLF or, where there is none, at its first LF LF. If
  -- they are not empty, their lines are those that go on with nothing, and those of headers, each a
  -- first line with the lines that go on with it. If two headers or more have a name and at least
  -- one belongs to the routing, exactly the headers of the routing are removed with all their
  -- lines, the rest of the text stays, and their number is returned; else the text stays as it is.
  pub remove_mail_routing_headers-IsCleaned :
      (text : Bytes) (separator : ℕ)
      → separator_of library text ≡ some separator
      → 0 < separator
      → IsCleaned text separator
  remove_mail_routing_headers-IsCleaned text separator found h =
      let (leading, headers, same, l, hs) =
        grouped (split (take separator text) (newline_of (take separator text))) in
      let named =
        recognized-continued leading (lines_of headers) l ∙ recognized-lines_of headers hs in
      let kept =
        keep_loop-kept leading (lines_of headers) l
        ∙ ap (λ (r : List Bytes × ℕ). (leading ++ r.0, r.1))
            (keep_loop-lines_of false headers hs) in
      record {
        leading = leading;
        headers = headers;
        lines_lem = same;
        leading_lem = l;
        headers_lem = hs;
        result_lem =
            cleaned_lines text separator found h
            ∙ ap (λ ls. outcome text separator (recognized ls) (keep_loop library false ls)) same
            ∙ ap
                (λ n.
                  outcome text separator n (keep_loop library false (leading ++ lines_of headers)))
                named
            ∙ ap (outcome text separator (count has_name headers)) kept;
      }
