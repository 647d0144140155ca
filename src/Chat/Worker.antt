-- ===== src/Chat/Worker.antt =====
-- csf_assign05/server.cpp: the login of a client in `worker`, which decides which loop serves it.
use assignments_for_csf.Base.{
  ℕ, ◌≡◌, subst, sym, arith, Bool, true, not, ◌&&◌, ◌||◌, List, [], ◌∷◌, Option, none, some, length,
  leb, if◌then◌else◌, codes, str_eq,
}
use assignments_for_csf.Chat.{
  Message, Result, success, eof_or_error, invalid_msg, Connection, send, receive, has, right_trim,
}

-- Whether a byte is in `alphabet`.
abbrev pub in_alphabet : ℕ → Bool
in_alphabet c =
    (leb b'a' c && leb c b'z') || (leb b'A' c && leb c b'Z') || (leb b'0' c && leb c b'9')

unfoldable pub all_in_alphabet : List ℕ → Bool
all_in_alphabet [] = true
all_in_alphabet (c ∷ s) = in_alphabet c && all_in_alphabet s

-- How the login ends: an exception, or the loop for a client of that name.
pub data Login : Type 0 where
  refused : Connection → Login
  as_sender : Connection → List ℕ → Login
  as_receiver : Connection → List ℕ → Login

unfoldable pub refuse : Connection → List ℕ → Login
refuse conn text = refused (send conn (record { tag = codes "err"; text = text })).0

-- The tag is looked at after the reply `ok`.
unfoldable pub by_tag : Connection → Message → Login
by_tag conn login_mes =
    if str_eq login_mes.tag (codes "slogin")
    then as_sender conn (right_trim login_mes.text)
    else if str_eq login_mes.tag (codes "rlogin")
    then as_receiver conn (right_trim login_mes.text)
    else refuse conn (codes "wrong tag")

unfoldable pub valid_name : List ℕ → Bool
valid_name text = not (leb (length text) 1 || not (all_in_alphabet (right_trim text)))

-- The checks on the user name.
unfoldable pub check_name : Connection → Message → Login
check_name conn login_mes =
    if not (has b'\n' login_mes.text)
    then refuse conn (codes "wrong format")
    else if not (valid_name login_mes.text)
    then refuse conn (codes "wrong tag")
    else (let (conn', sent) = send conn (record { tag = codes "ok"; text = [] }) in
        if sent then by_tag conn' login_mes else refused conn')

-- A message of unknown tag is answered by an error, and the checks go on with it all the same.
unfoldable pub login_result : Result → Connection → Message → Login
login_result eof_or_error conn login_mes = refused conn
login_result invalid_msg conn login_mes =
    let (conn', sent) = send conn (record { tag = codes "err"; text = codes "wrong format" }) in
    if sent then check_name conn' login_mes else refused conn'
login_result success conn login_mes = check_name conn login_mes

unfoldable pub login : Connection → Login
login conn =
    let (conn', login_mes) = receive conn (record { tag = []; text = [] }) in
    login_result conn'.last_result conn' login_mes

-- The name under which a login lets a client in.
unfoldable pub name_of : Login → Option (List ℕ)
name_of (refused conn) = none
name_of (as_sender conn name) = some name
name_of (as_receiver conn name) = some name

by_tag-name :
    (conn : Connection) (m : Message) (name : List ℕ)
    → name_of (by_tag conn m) ≡ some name
    → right_trim m.text ≡ name
unfolding by_tag name_of refuse
by_tag-name conn m name h = ground arith

check_name-name :
    (conn : Connection) (m : Message) (name : List ℕ)
    → name_of (check_name conn m) ≡ some name
    → (all_in_alphabet name ≡ true) × (name ≡ right_trim m.text)
unfolding check_name name_of refuse valid_name
check_name-name conn m name h =
    let after : Connection = (send conn (record { tag = codes "ok"; text = [] })).0 in
    let by : name_of (by_tag after m) ≡ some name → right_trim m.text ≡ name =
      by_tag-name after m name in
    let same : right_trim m.text ≡ name = ground (arith, by) in
    let good : all_in_alphabet (right_trim m.text) ≡ true = ground arith in
    (subst (λ n. all_in_alphabet n ≡ true) same good, sym same)

login_result-name :
    (result : Result) (conn : Connection) (m : Message) (name : List ℕ)
    → name_of (login_result result conn m) ≡ some name
    → (all_in_alphabet name ≡ true) × (name ≡ right_trim m.text)
unfolding login_result name_of
login_result-name eof_or_error conn m name h = absurd (ground arith)
login_result-name invalid_msg conn m name h =
    let error : Message = record { tag = codes "err"; text = codes "wrong format" } in
    check_name-name (send conn error).0 m name (ground arith)
login_result-name success conn m name h = check_name-name conn m name h

-- A client is let in only under a name of letters and digits, which is the trimmed text of its
-- first message.
login-name :
    (conn : Connection) (name : List ℕ)
    → name_of (login conn) ≡ some name
    → (all_in_alphabet name ≡ true)
      × (name ≡ right_trim (receive conn (record { tag = []; text = [] })).1.text)
unfolding login
login-name conn name h = login_result-name _ _ _ name h
