-- ===== src/Sharing/Ledger/Refinement.antt =====
-- The ledger implements a book that keeps no order: for each address the status of its entry, and
-- whether a connection to it may be open.
use susentorno.Base.{
  ℕ, ◌≡◌, refl, ◌∙◌, ap, arith, Bool, true, false, Option, none, some, List, [], ◌∷◌, has, lookup,
  ◌==◌, if◌then◌else◌, Bool-cases, inl, inr,
}
use susentorno.Base.Sets.{has-add, has-without}
use susentorno.Sharing.Ledger.{
  Target, Status, written, verified, removed, removal_failed, Entry, Ledger, new_ledger, mark,
  set_found, set_status, mark_written, mark_verified, mark_removed, mark_removal_failed,
  mark_connection_open, mark_connection_closed, unverified, open_connections,
}
use susentorno.Sharing.Ledger.Laws.{
  IsSound, mark-IsSound, set_status-IsSound, status_at, set_existing, status_at-mark,
  status_at-set_status, is_unverified, hosts, has-unverified,
}

-- A call of the ledger.
pub data Marking : Type 0 where
  write_entry verify_entry : Target → Marking
  remove_at fail_at connect disconnect : ℕ → Marking

abbrev pub apply : Marking → Ledger → Ledger
apply (write_entry t) l = mark_written t l
apply (verify_entry t) l = mark_verified t l
apply (remove_at k) l = mark_removed k l
apply (fail_at k) l = mark_removal_failed k l
apply (connect k) l = mark_connection_open k l
apply (disconnect k) l = mark_connection_closed k l

abbrev pub apply_all : List Marking → Ledger → Ledger
apply_all [] l = l
apply_all (m ∷ ms) l = apply_all ms (apply m l)

pub record Book : Type 0 where
  pub status : ℕ → Option Status
  pub is_open : ℕ → Bool

abbrev pub empty_book : Book
empty_book = record { status = λ k. none; is_open = λ k. false }

abbrev update {ℓ} : {A : Type ℓ} → ℕ → A → (ℕ → A) → ℕ → A
update j x f k = if k == j then x else f k

-- The same call on a book: only a known entry can be removed.
abbrev pub note : Marking → Book → Book
note (write_entry t) b = record b { status = update t.host_ip (some written) b.status }
note (verify_entry t) b = record b { status = update t.host_ip (some verified) b.status }
note (remove_at k) b = record b { status = update k (set_existing removed (b.status k)) b.status }
note (fail_at k) b = record b {
  status = update k (set_existing removal_failed (b.status k)) b.status;
}
note (connect k) b = record b { is_open = update k true b.is_open }
note (disconnect k) b = record b { is_open = update k false b.is_open }

abbrev pub note_all : List Marking → Book → Book
note_all [] b = b
note_all (m ∷ ms) b = note_all ms (note m b)

-- The ledger reads as the book.
pub record Reads (l : Ledger) (b : Book) : Type 0 where
  pub sound : IsSound l
  pub same_status : (k : ℕ) → status_at k l ≡ b.status k
  pub same_open : (k : ℕ) → has k (open_connections l) ≡ b.is_open k

if_same :
    {A : Type 0} (c : Bool) {x y u v : A}
    → x ≡ u
    → y ≡ v
    → (if c then x else y) ≡ (if c then u else v)
if_same true e h = e
if_same false e h = h

mark-Reads :
    (status : Status) (t : Target) (l : Ledger) (b : Book)
    → Reads l b
    → Reads (mark status t l) (record b { status = update t.host_ip (some status) b.status })
unfolding open_connections
mark-Reads status t l b h = record {
  sound = mark-IsSound status t l h.sound;
  same_status = λ k. status_at-mark k status t l ∙ if_same (k == t.host_ip) refl (h.same_status k);
  same_open = h.same_open;
}

set_found_open :
    (o : Option Entry) (j : ℕ) (status : Status) (l : Ledger)
    → (set_found o j status l).open_addresses ≡ l.open_addresses
set_found_open none j status l = refl
set_found_open (some entry) j status l = refl

set_status-Reads :
    (j : ℕ) (status : Status) (l : Ledger) (b : Book)
    → Reads l b
    → Reads
        (set_status j status l)
        (record b { status = update j (set_existing status (b.status j)) b.status })
unfolding open_connections
set_status-Reads j status l b h = record {
  sound = set_status-IsSound j status l h.sound;
  same_status = λ k.
      status_at-set_status k j status l
      ∙ if_same (k == j) (ap (set_existing status) (h.same_status j)) (h.same_status k);
  same_open =
      λ k. ap (λ xs. has k xs) (set_found_open (lookup j l.by_address) j status l) ∙ h.same_open k;
}

connect-Reads :
    (j : ℕ) (l : Ledger) (b : Book)
    → Reads l b
    → Reads (mark_connection_open j l) (record b { is_open = update j true b.is_open })
unfolding mark_connection_open open_connections
connect-Reads j l b h = record {
  sound = h.sound;
  same_status = h.same_status;
  same_open = λ k.
      let e = has-add k j l.open_addresses in
      let o = h.same_open k in
      elim (Bool-cases (k == j)) [
        | inl y ↦ rw (e, y) (ground arith)
        | inr n ↦ rw (e, n) (ground arith)
      ];
}

disconnect-Reads :
    (j : ℕ) (l : Ledger) (b : Book)
    → Reads l b
    → Reads (mark_connection_closed j l) (record b { is_open = update j false b.is_open })
unfolding mark_connection_closed open_connections
disconnect-Reads j l b h = record {
  sound = h.sound;
  same_status = h.same_status;
  same_open = λ k.
      let e = has-without j k l.open_addresses in
      let o = h.same_open k in
      elim (Bool-cases (k == j)) [
        | inl y ↦ let y' : (j == k) ≡ true = ground arith in rw (e, y, y') (ground arith)
        | inr n ↦ let n' : (j == k) ≡ false = ground arith in rw (e, n, n') (ground arith)
      ];
}

apply-Reads : (m : Marking) (l : Ledger) (b : Book) → Reads l b → Reads (apply m l) (note m b)
unfolding mark_written mark_verified mark_removed mark_removal_failed
apply-Reads (write_entry t) l b h = mark-Reads written t l b h
apply-Reads (verify_entry t) l b h = mark-Reads verified t l b h
apply-Reads (remove_at k) l b h = set_status-Reads k removed l b h
apply-Reads (fail_at k) l b h = set_status-Reads k removal_failed l b h
apply-Reads (connect k) l b h = connect-Reads k l b h
apply-Reads (disconnect k) l b h = disconnect-Reads k l b h

pub apply_all-Reads :
    (ms : List Marking) (l : Ledger) (b : Book) → Reads l b → Reads (apply_all ms l) (note_all ms b)
apply_all-Reads [] l b h = h
apply_all-Reads (m ∷ ms) l b h = apply_all-Reads ms (apply m l) (note m b) (apply-Reads m l b h)

new_ledger-Reads : Reads new_ledger empty_book
unfolding open_connections
new_ledger-Reads = record { sound = (tt, tt); same_status = λ k. refl; same_open = λ k. refl }

-- Whatever calls a ledger has seen since it was new, it tells of each address what a book of the
-- same calls tells: the status, whether a connection may be open, and whether the address is among
-- the unverified, which are the ones noted as written.
pub apply_all-refines :
    (ms : List Marking) (k : ℕ)
    → (status_at k (apply_all ms new_ledger) ≡ (note_all ms empty_book).status k)
      × (has k (open_connections (apply_all ms new_ledger)) ≡ (note_all ms empty_book).is_open k)
      × (has k (hosts (unverified (apply_all ms new_ledger)))
          ≡ is_unverified ((note_all ms empty_book).status k))
apply_all-refines ms k =
    let h = apply_all-Reads ms new_ledger empty_book new_ledger-Reads in
    (
      h.same_status k,
      h.same_open k,
      has-unverified k (apply_all ms new_ledger) h.sound ∙ ap is_unverified (h.same_status k),
    )
