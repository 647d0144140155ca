-- ===== src/Chat/Clients/Lines.antt =====
-- From the deliveries of the server to the lines on the screen of the receiving client.
use assignments_for_csf.Base.{
  ℕ, ◌<◌, ◌≡◌, refl, ap, subst, ◌∙◌, sym, arith, true, false, List, [], ◌∷◌, ◌++◌, map, codes,
  str_eq, str_eq_refl, length, append_assoc, append-nil,
}
use assignments_for_csf.Chat.{Message, success, encode, after_colon, has, known_tag, max_len}
use assignments_for_csf.Chat.Codec.{
  receive-encode, has-append, has_colon, before_colon-append, after_first-append, c_string-plain,
}
use assignments_for_csf.Chat.Worker.{in_alphabet, all_in_alphabet}
use assignments_for_csf.Chat.Clients.{blank_message}
use assignments_for_csf.Chat.Clients.Receiving.{Screen, shown, show_response, listen_once, listen}

-- A user's name and what that user said.
pub record Said : Type 0 where
  pub user : List ℕ
  pub text : List ℕ

abbrev pub delivery : List ℕ → Said → Message
delivery room said = record {
  tag = codes "delivery";
  text = room ++ b':' ∷ said.user ++ b':' ∷ said.text;
}

-- A line of the screen.
abbrev pub line : Said → List ℕ
line said = said.user ++ b':' ∷ b' ' ∷ (said.text ++ b'\n' ∷ [])

unfoldable pub lines : List Said → List ℕ
lines [] = []
lines (said ∷ rest) = line said ++ lines rest

-- From a user whose name the server lets in, without NUL, and short enough to be received whole as
-- a delivery to the room.
unfoldable pub IsPlain : List ℕ → Said → Type 0
IsPlain room said =
    (all_in_alphabet said.user ≡ true)
    × (has 0 said.text ≡ false)
    × (length (encode (delivery room said)) < max_len)

unfoldable pub AllPlain : List ℕ → List Said → Type 0
AllPlain room [] = Unit
AllPlain room (said ∷ rest) = IsPlain room said × AllPlain room rest

alphabet-has :
    (c : ℕ) (s : List ℕ) → in_alphabet c ≡ false → all_in_alphabet s ≡ true → has c s ≡ false
unfolding all_in_alphabet has
alphabet-has c [] h ok = refl
alphabet-has c (d ∷ s) h ok = ground (arith, alphabet-has c s h)

after_colon-append : (s t : List ℕ) → has b':' s ≡ false → after_colon (s ++ b':' ∷ t) ≡ t
unfolding after_colon
after_colon-append s t h = rw (has_colon s t) (after_first-append s t h)

line-clean : (room : List ℕ) (said : Said) → IsPlain room said → has 0 (line said) ≡ false
unfolding IsPlain has
line-clean room said (name, clean, fits) =
    has-append 0 said.user (b':' ∷ b' ' ∷ (said.text ++ b'\n' ∷ []))
      (alphabet-has 0 said.user refl name)
    ∙ has-append 0 said.text (b'\n' ∷ []) clean

module _ (room : List ℕ) (colon : has b':' room ≡ false) (nul : has 0 room ≡ false) where
  shown-line :
      (said : Said)
      → IsPlain room said
      → shown room ((delivery room said).text ++ b'\n' ∷ []) ≡ line said
  unfolding shown IsPlain
  shown-line said (name, clean, fits) =
      let told = said.text ++ b'\n' ∷ [] in
      let no_colon = alphabet-has b':' said.user refl name in
      let whole =
        append_assoc (room ++ b':' ∷ said.user) (b':' ∷ said.text) (b'\n' ∷ [])
        ∙ append_assoc room (b':' ∷ said.user) (b':' ∷ told) in
      ap (shown room) whole
      ∙ rw
          (
            before_colon-append room (said.user ++ b':' ∷ told) colon,
            after_colon-append room (said.user ++ b':' ∷ told) colon,
            str_eq_refl room,
            before_colon-append said.user told no_colon,
            after_colon-append said.user told no_colon,
          )
          (c_string-plain (line said) (line-clean room said (name, clean, fits)))

  delivery-clean : (said : Said) → IsPlain room said → has 0 (delivery room said).text ≡ false
  unfolding IsPlain has
  delivery-clean said (name, clean, fits) =
      has-append 0 (room ++ b':' ∷ said.user) (b':' ∷ said.text)
        (has-append 0 room (b':' ∷ said.user) nul ∙ alphabet-has 0 said.user refl name)
      ∙ clean

  listen_once-line :
      (said : Said) (screen : Screen) (rest : List (List ℕ))
      → IsPlain room said
      → screen.conn.incoming ≡ encode (delivery room said) ∷ rest
      → listen_once room screen ≡ record screen {
        conn = record screen.conn { incoming = rest; last_result = success };
        output = screen.output ++ line said;
      }
  unfolding listen_once show_response known_tag str_eq has IsPlain
  listen_once-line said screen rest plain next =
      rw
        (receive-encode screen.conn (delivery room said) blank_message rest next refl refl refl
          (delivery-clean said plain) (plain.2))
        (ap
          (λ out. record screen {
            conn = record screen.conn { incoming = rest; last_result = success };
            output = screen.output ++ out;
          })
          (shown-line said plain))

  -- If the lines of the connection begin with deliveries to the room that the client has joined,
  -- from users whose names the server lets in, without NUL and short enough to be read whole, then as many rounds of the client's
  -- loop print, in order, the name and the text of each, a line for each, read no more and complain
  -- of nothing. The room's name has neither a colon nor a NUL.
  pub listen-lines :
      (said : List Said) (screen : Screen) (rest : List (List ℕ))
      → AllPlain room said
      → screen.conn.incoming ≡ map encode (map (delivery room) said) ++ rest
      → ((listen (length said) room screen).output ≡ screen.output ++ lines said)
        × ((listen (length said) room screen).conn.incoming ≡ rest)
        × ((listen (length said) room screen).complaints ≡ screen.complaints)
  unfolding listen lines AllPlain
  listen-lines [] screen rest plain next = (sym (append-nil screen.output), next, refl)
  listen-lines (s ∷ said) screen rest (one, plain) next =
      let later = map encode (map (delivery room) said) ++ rest in
      let screen' : Screen = record screen {
        conn = record screen.conn { incoming = later; last_result = success };
        output = screen.output ++ line s;
      } in
      let (out, left, quiet) = listen-lines said screen' rest plain refl in
      subst
        (λ (after : Screen).
          ((listen (length said) room after).output ≡ screen.output ++ lines (s ∷ said))
          × ((listen (length said) room after).conn.incoming ≡ rest)
          × ((listen (length said) room after).complaints ≡ screen.complaints))
        (sym (listen_once-line s screen later one next))
        (out ∙ append_assoc screen.output (line s) (lines said), left, quiet)
