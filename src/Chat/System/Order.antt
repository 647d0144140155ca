-- ===== src/Chat/System/Order.antt =====
-- The threads of csf_assign05/server.cpp in any order.
use mathlib.Core.List.{Permᴰ}
use mathlib.Core.List.Permᴰ
use assignments_for_csf.Base.{
  ℕ, zero, suc, ◌≡◌, refl, ap, ◌∙◌, sym, arith, ◌||◌, List, [], ◌∷◌, Option, none, some, ◌==◌,
  get_elem?, set, subst,
}
use assignments_for_csf.Chat.Rooms.{Room, member}
use assignments_for_csf.Chat.Rooms.Broadcast.{IsMembership}
use assignments_for_csf.Chat.System.{Client}
use assignments_for_csf.Chat.System.Threads.{
  own_user, with_own, users_of, at_room, visits, IsPlaced, AllPlaced,
}

with_own-Perm :
    (own : Option ℕ) {us vs : List ℕ} → Permᴰ us vs → Permᴰ (with_own own us) (with_own own vs)
unfolding with_own
with_own-Perm none p = p
with_own-Perm (some user) p = Permᴰ.cons refl p

with_own-swap :
    (a b : Option ℕ) (users : List ℕ)
    → Permᴰ (with_own a (with_own b users)) (with_own b (with_own a users))
unfolding with_own
with_own-swap none b users = Permᴰ.refl _
with_own-swap (some a) none users = Permᴰ.refl _
with_own-swap (some a) (some b) users = Permᴰ.swap refl refl

pub users_of-Perm : {cs ds : List Client} → Permᴰ cs ds → Permᴰ (users_of cs) (users_of ds)
unfolding users_of
users_of-Perm Permᴰ.nil = Permᴰ.nil
users_of-Perm (Permᴰ.cons {a} {b} {l₁} {l₂} e p) =
    subst (λ c. Permᴰ (users_of (a ∷ l₁)) (users_of (c ∷ l₂))) e
      (with_own-Perm (own_user a) (users_of-Perm p))
users_of-Perm (Permᴰ.swap {a} {b} {a'} {b'} {l} e f) =
    subst (λ c. Permᴰ (users_of (a ∷ b ∷ l)) (users_of (a' ∷ c ∷ l))) e
      (subst (λ c. Permᴰ (users_of (a ∷ b ∷ l)) (users_of (c ∷ a ∷ l))) f
        (with_own-swap (own_user a) (own_user b) (users_of l)))
users_of-Perm (Permᴰ.trans p q) = Permᴰ.trans (users_of-Perm p) (users_of-Perm q)

member-Perm : (user : ℕ) {us vs : List ℕ} → Permᴰ us vs → member user us ≡ member user vs
unfolding member
member-Perm user Permᴰ.nil = refl
member-Perm user (Permᴰ.cons {a} {b} {l₁} {l₂} e p) =
    subst (λ c. member user (a ∷ l₁) ≡ member user (c ∷ l₂)) e
      (ap (λ m. a == user || m) (member-Perm user p))
member-Perm user (Permᴰ.swap {a} {b} {a'} {b'} {l} e f) = ground (arith, e, f)
member-Perm user (Permᴰ.trans p q) = member-Perm user p ∙ member-Perm user q

pub IsMembership-Perm :
    (n : ℕ) {us vs : List ℕ} → Permᴰ us vs → IsMembership n us → IsMembership n vs
unfolding IsMembership member
IsMembership-Perm n Permᴰ.nil ok = tt
IsMembership-Perm n (Permᴰ.cons {a} {b} {l₁} {l₂} e p) (lt, once, ok) =
    subst (λ c. IsMembership n (c ∷ l₂)) e
      (lt, sym (member-Perm a p) ∙ once, IsMembership-Perm n p ok)
IsMembership-Perm n (Permᴰ.swap {a} {b} {a'} {b'} {l} e f) (lt, once, (lt', once', ok)) =
    subst (λ c. IsMembership n (a' ∷ c ∷ l)) e
      (subst (λ c. IsMembership n (c ∷ a ∷ l)) f (lt', ground arith, (lt, ground arith, ok)))
IsMembership-Perm n (Permᴰ.trans p q) ok = IsMembership-Perm n q (IsMembership-Perm n p ok)

pub visits-Perm :
    (name : List ℕ) (user : ℕ) {cs ds : List Client}
    → Permᴰ cs ds
    → visits name user cs ≡ visits name user ds
unfolding visits
visits-Perm name user Permᴰ.nil = refl
visits-Perm name user (Permᴰ.cons {a} {b} {l₁} {l₂} e p) =
    subst (λ c. visits name user (a ∷ l₁) ≡ visits name user (c ∷ l₂)) e
      (ap (λ m. at_room name user a || m) (visits-Perm name user p))
visits-Perm name user (Permᴰ.swap {a} {b} {a'} {b'} {l} e f) =
    subst (λ c. visits name user (a ∷ b ∷ l) ≡ visits name user (a' ∷ c ∷ l)) e
      (subst (λ c. visits name user (a ∷ b ∷ l) ≡ visits name user (c ∷ a ∷ l)) f (ground arith))
visits-Perm name user (Permᴰ.trans p q) = visits-Perm name user p ∙ visits-Perm name user q

pub AllPlaced-Perm :
    (rooms : List Room) {cs ds : List Client}
    → Permᴰ cs ds
    → AllPlaced rooms cs
    → AllPlaced rooms ds
unfolding AllPlaced
AllPlaced-Perm rooms Permᴰ.nil ok = tt
AllPlaced-Perm rooms (Permᴰ.cons e p) (first, ok) =
    (subst (IsPlaced rooms) e first, AllPlaced-Perm rooms p ok)
AllPlaced-Perm rooms (Permᴰ.swap e f) (first, (second, ok)) =
    (subst (IsPlaced rooms) f second, (subst (IsPlaced rooms) e first, ok))
AllPlaced-Perm rooms (Permᴰ.trans p q) ok = AllPlaced-Perm rooms q (AllPlaced-Perm rooms p ok)

-- A client that has a place comes first in some order of the clients, also after a change to it.
pub at_place :
    (clients : List Client) (i : ℕ) (c : Client)
    → get_elem? clients i ≡ some c
    → (others : List Client) × Permᴰ clients (c ∷ others)
      × ((c' : Client) → Permᴰ (c' ∷ others) (set clients i c'))
at_place [] i c h = ground arith
at_place (x ∷ clients) zero c h =
    (clients, Permᴰ.cons (let same : x ≡ c = cc in same) (Permᴰ.refl clients), λ c'. Permᴰ.refl _)
at_place (x ∷ clients) (suc i) c h =
    let (others, there, back) = at_place clients i c h in
    (
      x ∷ others,
      Permᴰ.trans (Permᴰ.cons refl there) (Permᴰ.swap refl refl),
      λ c'. Permᴰ.trans (Permᴰ.swap refl refl) (Permᴰ.cons refl (back c')),
    )
