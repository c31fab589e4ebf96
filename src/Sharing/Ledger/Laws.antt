-- ===== src/Sharing/Ledger/Laws.antt =====
-- The ledger's map holds each entry once, under its own address.
use susentorno.Base.{
  ℕ, ◌≡◌, refl, ◌∙◌, subst, arith, Bool, false, ◌&&◌, Option, none, some, List, [], ◌∷◌, map, has,
  select, lookup, lookup-insert, HasDistinctKeys, HasDistinctKeys-insert, ◌==◌, if◌then◌else◌,
  Bool-cases, IsKeyedBy, IsKeyedBy-insert, IsKeyedBy-lookup, any, any-values, values, holds, inl,
  inr, ap,
}
use susentorno.Sharing.Ledger.{
  Target, Status, Entry, Ledger, mark, set_found, set_status, entries, is_written, unverified,
}

abbrev host : Entry → ℕ
host entry = entry.host_ip

abbrev pub IsSound : Ledger → Type 0
IsSound l = HasDistinctKeys l.by_address × IsKeyedBy host l.by_address

pub mark-IsSound :
    (status : Status) (t : Target) (l : Ledger) → IsSound l → IsSound (mark status t l)
mark-IsSound status t l (d, k) = (
  HasDistinctKeys-insert t.host_ip _ l.by_address d,
  IsKeyedBy-insert host t.host_ip _ l.by_address refl k,
)

set_found-IsSound :
    (o : Option Entry) (k : ℕ) (status : Status) (l : Ledger)
    → lookup k l.by_address ≡ o
    → IsSound l
    → IsSound (set_found o k status l)
set_found-IsSound none k status l e h = h
set_found-IsSound (some entry) k status l e (d, h) = (
  HasDistinctKeys-insert k _ l.by_address d,
  IsKeyedBy-insert host k _ l.by_address (IsKeyedBy-lookup host k entry l.by_address h e) h,
)

pub set_status-IsSound :
    (k : ℕ) (status : Status) (l : Ledger) → IsSound l → IsSound (set_status k status l)
set_status-IsSound k status l h = set_found-IsSound (lookup k l.by_address) k status l refl h

-- What the ledger says of an address.
abbrev pub status_of : Option Entry → Option Status
status_of none = none
status_of (some entry) = some entry.status

abbrev pub status_at : ℕ → Ledger → Option Status
status_at k l = status_of (lookup k l.by_address)

abbrev pub set_existing : Status → Option Status → Option Status
set_existing status none = none
set_existing status (some old) = some status

pub status_at-mark :
    (k : ℕ) (status : Status) (t : Target) (l : Ledger)
    → status_at k (mark status t l) ≡ (if k == t.host_ip then some status else status_at k l)
status_at-mark k status t l = elim (Bool-cases (k == t.host_ip)) [
  | inl y ↦ rw (lookup-insert t.host_ip k _ l.by_address, y) refl
  | inr n ↦ rw (lookup-insert t.host_ip k _ l.by_address, n) refl
]

status_at-set_found :
    (o : Option Entry) (k j : ℕ) (status : Status) (l : Ledger)
    → lookup j l.by_address ≡ o
    → status_at k (set_found o j status l)
      ≡ (if k == j then set_existing status (status_of o) else status_at k l)
status_at-set_found none k j status l e = elim (Bool-cases (k == j)) [
  | inl y ↦
      let same : j ≡ k = ground arith in
      rw y (ap status_of (subst (λ i. lookup i l.by_address ≡ none) same e))
  | inr n ↦ rw n refl
]
status_at-set_found (some entry) k j status l e = elim (Bool-cases (k == j)) [
  | inl y ↦ rw (lookup-insert j k _ l.by_address, y) refl
  | inr n ↦ rw (lookup-insert j k _ l.by_address, n) refl
]

pub status_at-set_status :
    (k j : ℕ) (status : Status) (l : Ledger)
    → status_at k (set_status j status l)
      ≡ (if k == j then set_existing status (status_at j l) else status_at k l)
status_at-set_status k j status l = status_at-set_found (lookup j l.by_address) k j status l refl

abbrev pub is_unverified : Option Status → Bool
is_unverified none = false
is_unverified (some status) = is_written status

unfoldable pub hosts : List Entry → List ℕ
hosts entries = map host entries

abbrev keep : Entry → Bool
keep entry = is_written entry.status

has-select :
    (k : ℕ) (es : List Entry)
    → has k (map host (select keep es)) ≡ any (λ e. keep e && k == host e) es
has-select k [] = refl
has-select k (e ∷ es) =
    let r = has-select k es in
    elim (Bool-cases (keep e)) [ inl w ↦ rw w (ground arith) | inr w ↦ rw w r ]

holds-status_of : (o : Option Entry) → holds keep o ≡ is_unverified (status_of o)
holds-status_of none = refl
holds-status_of (some entry) = refl

-- `unverified` lists the addresses whose entry is written.
pub has-unverified :
    (k : ℕ) (l : Ledger) → IsSound l → has k (hosts (unverified l)) ≡ is_unverified (status_at k l)
unfolding unverified entries hosts
has-unverified k l (d, h) =
    has-select k (values l.by_address)
    ∙ any-values host keep k l.by_address d h
    ∙ holds-status_of (lookup k l.by_address)
