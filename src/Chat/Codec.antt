-- ===== src/Chat/Codec.antt =====
-- The encoding of messages, and the trimming of texts.
use assignments_for_csf.Base.{
  ℕ, ◌-◌, ◌<◌, ◌≤◌, length, leb, ◌≡◌, refl, ap, ◌∙◌, inl, inr, arith, Bool, true, false, List, [],
  ◌∷◌, ◌++◌, if◌then◌else◌, Bool-cases,
}
use assignments_for_csf.Chat.{
  Message, Connection, success, invalid_msg, c_string, encode, has, before_colon, after_first,
  after_colon, known_tag, max_len, next_piece, receive, trim_end,
}

pub c_string-plain : (s : List ℕ) → has 0 s ≡ false → c_string s ≡ s
unfolding c_string has
c_string-plain [] h = refl
c_string-plain (c ∷ s) h = ground (arith, c_string-plain s)

pub has-append : (c : ℕ) (s t : List ℕ) → has c s ≡ false → has c (s ++ t) ≡ has c t
unfolding has
has-append c [] t h = refl
has-append c (d ∷ s) t h = ground (arith, has-append c s t)

pub has_colon : (s t : List ℕ) → has b':' (s ++ b':' ∷ t) ≡ true
unfolding has
has_colon [] t = refl
has_colon (c ∷ s) t = ground (arith, has_colon s t)

pub before_colon-append : (s t : List ℕ) → has b':' s ≡ false → before_colon (s ++ b':' ∷ t) ≡ s
unfolding before_colon has
before_colon-append [] t h = refl
before_colon-append (c ∷ s) t h = ground (arith, before_colon-append s t)

pub after_first-append : (s t : List ℕ) → has b':' s ≡ false → after_first (s ++ b':' ∷ t) ≡ t
unfolding after_first has
after_first-append [] t h = refl
after_first-append (c ∷ s) t h = ground (arith, after_first-append s t)

pub receive-line :
    (conn : Connection) (before : Message) (line : List ℕ) (rest : List (List ℕ))
    → conn.incoming ≡ line ∷ rest
    → receive conn before ≡ (
      record conn {
        incoming = (next_piece line rest).1;
        last_result =
            if known_tag (before_colon (c_string (next_piece line rest).0))
            then success
            else invalid_msg;
      },
      record {
        tag = before_colon (c_string (next_piece line rest).0);
        text = after_colon (c_string (next_piece line rest).0);
      },
    )
unfolding receive
receive-line conn before line rest next = rw next refl

le→leb : (a b : ℕ) → a ≤ b → leb a b ≡ true
le→leb a b h = ground arith

-- A line that fits is read whole.
next_piece-fits :
    (line : List ℕ) (rest : List (List ℕ))
    → length line < max_len
    → next_piece line rest ≡ (line, rest)
unfolding next_piece
next_piece-fits line rest fits = rw (le→leb (length line) (max_len - 1) (omega arith)) refl

pub encode-whole :
    (msg : Message)
    → has 0 msg.tag ≡ false
    → has 0 msg.text ≡ false
    → encode msg ≡ msg.tag ++ b':' ∷ (msg.text ++ b'\n' ∷ [])
unfolding encode has
encode-whole msg nul_tag nul_text =
    let body : List ℕ = msg.text ++ b'\n' ∷ [] in
    let clean_body : has 0 body ≡ false = has-append 0 msg.text (b'\n' ∷ []) nul_text in
    c_string-plain (msg.tag ++ b':' ∷ body)
      (has-append 0 msg.tag (b':' ∷ body) nul_tag ∙ clean_body)

encode-plain :
    (msg : Message)
    → has 0 msg.tag ≡ false
    → has 0 msg.text ≡ false
    → c_string (encode msg) ≡ msg.tag ++ b':' ∷ (msg.text ++ b'\n' ∷ [])
unfolding encode
encode-plain msg nul_tag nul_text =
    ap c_string (encode-whole msg nul_tag nul_text) ∙ encode-whole msg nul_tag nul_text

pub receive-encode :
    (conn : Connection) (msg before : Message) (rest : List (List ℕ))
    → conn.incoming ≡ encode msg ∷ rest
    → known_tag msg.tag ≡ true
    → has b':' msg.tag ≡ false
    → has 0 msg.tag ≡ false
    → has 0 msg.text ≡ false
    → length (encode msg) < max_len
    → receive conn before ≡ (
      record conn { incoming = rest; last_result = success },
      record msg { text = msg.text ++ b'\n' ∷ [] },
    )
unfolding after_colon
receive-encode conn msg before rest next known colon nul_tag nul_text fits =
    let body : List ℕ = msg.text ++ b'\n' ∷ [] in
    receive-line conn before (encode msg) rest next
    ∙ rw
        (
          next_piece-fits (encode msg) rest fits,
          encode-plain msg nul_tag nul_text,
          before_colon-append msg.tag body colon,
          has_colon msg.tag body,
          after_first-append msg.tag body colon,
          known,
        )
        refl

-- A blank at the end makes no difference.
pub trim_end-blank :
    (blank : ℕ → Bool) (s : List ℕ) (c : ℕ)
    → blank c ≡ true
    → trim_end blank (s ++ c ∷ []) ≡ trim_end blank s
unfolding trim_end
trim_end-blank blank [] c h = rw h refl
trim_end-blank blank (d ∷ s) c h = rw (trim_end-blank blank s c h) refl

keep_trimmed :
    (blank : ℕ → Bool) (c : ℕ) (t : List ℕ)
    → trim_end blank t ≡ t
    → trim_end blank
        (elim t as (λ x. List ℕ) [ [] ↦ if blank c then [] else c ∷ [] | d ∷ rest ↦ c ∷ d ∷ rest ])
      ≡ elim t as (λ x. List ℕ) [ [] ↦ if blank c then [] else c ∷ [] | d ∷ rest ↦ c ∷ d ∷ rest ]
unfolding trim_end
keep_trimmed blank c [] h = elim (Bool-cases (blank c)) [
  | inl e ↦ rw e refl
  | inr e ↦ rw (e, e) refl
]
keep_trimmed blank c (d ∷ rest) h = rw (trim_end, h) refl

-- Trimming the end of a text a second time changes nothing.
trim_end-idempotent :
    (blank : ℕ → Bool) (s : List ℕ) → trim_end blank (trim_end blank s) ≡ trim_end blank s
unfolding trim_end
trim_end-idempotent blank [] = refl
trim_end-idempotent blank (c ∷ s) =
    keep_trimmed blank c (trim_end blank s) (trim_end-idempotent blank s)
