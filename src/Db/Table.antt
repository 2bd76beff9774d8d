-- ===== src/Db/Table.antt =====
-- `table_` of src/db.cc, `Apply` and `Get`, and the loop of `ReplayWal` over the records.
use mini_lsm.Prelude.{
  ℕ, ◌<◌, ◌≡◌, refl, sym, ap, ◌∙◌, ap₂, Bool, true, false, Option, none, some, List, [], ◌∷◌, ◌++◌,
  arith, ◌==◌, if◌then◌else◌, length, u32, append-nil, beq_self, All,
}
use mini_lsm.Db.Record.{
  ValueType, type_put, type_delete, Decoded, encode_record, decode_record,
  decode_record-encode_record,
}

unfoldable pub same_bytes : List ℕ → List ℕ → Bool
same_bytes [] [] = true
same_bytes [] (y ∷ ys) = false
same_bytes (x ∷ xs) [] = false
same_bytes (x ∷ xs) (y ∷ ys) = if x == y then same_bytes xs ys else false

-- A `std::map` from keys to values that is searched, assigned and erased from, and never walked.
abbrev pub Table : Type 0
Table = List ℕ → Option (List ℕ)

abbrev pub empty : Table
empty key = none

unfoldable pub apply : ValueType → List ℕ → List ℕ → Table → Table
apply type key value table k =
    if same_bytes key k then (if type == type_put then some value else none) else table k

-- The round of the loop of `ReplayWal` for one record: what cannot be decoded is skipped.
unfoldable pub apply_decoded : Option Decoded → Table → Table
apply_decoded none table = table
apply_decoded (some d) table = apply d.type d.key d.value table

unfoldable pub replay : List (List ℕ) → Table → Table
unfolding apply_decoded
replay [] table = table
replay (record_bytes ∷ records) table =
    replay records (apply_decoded (decode_record record_bytes) table)

pub same_bytes-eq : (xs ys : List ℕ) → same_bytes xs ys ≡ true → xs ≡ ys
unfolding same_bytes
same_bytes-eq [] [] h = refl
same_bytes-eq [] (y ∷ ys) h = absurd (cc)
same_bytes-eq (x ∷ xs) [] h = absurd (cc)
same_bytes-eq (x ∷ xs) (y ∷ ys) h = ap₂ ◌∷◌ (ground arith) (same_bytes-eq xs ys (ground arith))

pub same_bytes_self : (xs : List ℕ) → same_bytes xs xs ≡ true
unfolding same_bytes
same_bytes_self [] = refl
same_bytes_self (x ∷ xs) = rw (beq_self x) (same_bytes_self xs)

-- One write of the store: the operation of `Put` or `Delete`.
pub data Operation : Type 0 where
  put : List ℕ → List ℕ → Operation
  delete : List ℕ → Operation

-- The record that `Write` appends to the log for an operation.
unfoldable pub log_record : Operation → List ℕ
log_record (put key value) = encode_record type_put key value
log_record (delete key) = encode_record type_delete key []

-- What the operation does to the table.
unfoldable pub perform : Operation → Table → Table
perform (put key value) = apply type_put key value
perform (delete key) = apply type_delete key []

unfoldable pub perform_all : List Operation → Table → Table
perform_all [] table = table
perform_all (o ∷ os) table = perform_all os (perform o table)

-- Keys and values whose lengths fit the four bytes of their fields.
abbrev pub Fits : Operation → Type 0
Fits (put key value) = (length key < u32) × (length value < u32)
Fits (delete key) = length key < u32

abbrev pub log_records : List Operation → List (List ℕ)
log_records [] = []
log_records (o ∷ os) = log_record o ∷ log_records os

decoded_record :
    (type : ValueType) (key value : List ℕ) (table : Table)
    → length key < u32
    → length value < u32
    → apply_decoded (decode_record (encode_record type key value)) table
      ≡ apply type key (if type == type_put then value else []) table
unfolding apply_decoded
decoded_record type key value table hk hv =
    ap (λ d. apply_decoded d table)
      (ap decode_record (sym (append-nil (encode_record type key value)))
        ∙ decode_record-encode_record type key value [] hk hv)

pub decode_record-log_record :
    (o : Operation) (table : Table)
    → Fits o
    → apply_decoded (decode_record (log_record o)) table ≡ perform o table
unfolding log_record perform
decode_record-log_record (put key value) table h = decoded_record type_put key value table h.0 h.1
decode_record-log_record (delete key) table h =
    decoded_record type_delete key [] table h (omega arith)

-- Replaying the records of any writes, from any table, has the effect of the writes, if the lengths
-- of their keys and values fit 32 bits.
pub replay-log_records :
    (os : List Operation) (table : Table)
    → All Fits os
    → replay (log_records os) table ≡ perform_all os table
unfolding replay perform_all
replay-log_records [] table h = refl
replay-log_records (o ∷ os) table h =
    ap (replay (log_records os)) (decode_record-log_record o table h.0)
    ∙ replay-log_records os (perform o table) h.1

-- What an operation leaves at its own key, and `none` at any other.
abbrev pub written : List ℕ → Operation → Option (Option (List ℕ))
written k (put key value) = if same_bytes key k then some (some value) else none
written k (delete key) = if same_bytes key k then some none else none

-- The last operation on a key decides.
abbrev pub last_written : List ℕ → List Operation → Option (Option (List ℕ))
last_written k [] = none
last_written k (o ∷ os) = elim (last_written k os) [ none ↦ written k o | some v ↦ some v ]

abbrev pub or_else : Option (Option (List ℕ)) → Option (List ℕ) → Option (List ℕ)
or_else none old = old
or_else (some v) old = v

perform-written :
    (o : Operation) (table : Table) (k : List ℕ)
    → perform o table k ≡ or_else (written k o) (table k)
unfolding perform apply
perform-written (put key value) table k = ground arith
perform-written (delete key) table k = ground arith

perform_all-last_written :
    (os : List Operation) (table : Table) (k : List ℕ)
    → perform_all os table k ≡ or_else (last_written k os) (table k)
unfolding perform_all
perform_all-last_written [] table k = refl
perform_all-last_written (o ∷ os) table k =
    ground (arith, perform_all-last_written os (perform o table) k, perform-written o table k)

-- After a recovery from the log of any writes, a key reads what the last write on it left, and
-- nothing if there was none, if the lengths of the keys and values fit 32 bits.
pub replay-last_written :
    (os : List Operation) (k : List ℕ)
    → All Fits os
    → replay (log_records os) empty k ≡ or_else (last_written k os) none
replay-last_written os k h =
    ap (λ (t : Table). t k) (replay-log_records os empty h) ∙ perform_all-last_written os empty k

pub replay-append :
    (xs : List (List ℕ)) (b : List ℕ) (table : Table)
    → replay (xs ++ b ∷ []) table ≡ apply_decoded (decode_record b) (replay xs table)
unfolding replay
replay-append [] b table = refl
replay-append (x ∷ xs) b table = replay-append xs b (apply_decoded (decode_record x) table)
