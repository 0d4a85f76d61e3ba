-- ===== src/Notify/Registry.antt =====
-- `NotifyRegistry` of rfed/src/notify/mod.rs, and the relay hash that it accepts. A relay hash is a
-- byte string of ASCII.
use rfed.Base.{
  ℕ, List, [], ◌∷◌, map, filter, Option, none, some, Bytes, same, Bool, true, false, not, ◌&&◌,
  ◌||◌, if◌then◌else◌, any, length, ltb, leb, ◌==◌, is_empty, max, mem,
}
use rfed.Store.{Db, write_all}

pub record NotifyRegistration : Type 0 where
  pub subscriber_hash : Bytes
  pub channel_hash : Option Bytes
  pub relay_hash : Bytes
  pub registered : ℕ

pub record Row : Type 0 where
  pub subscriber_hash : Bytes
  pub channel_hash : Bytes
  pub relay_hash : Bytes
  pub registered : ℕ

-- The statements: the upsert of `put_registration`, the deletions of `unregister` and `clear`, and
-- the upsert of `rekey_identity_channel_rows`, which keeps the later time.
pub data Stmt : Type 0 where
  put_row : Row → Stmt
  delete_triple : Bytes → Bytes → Bytes → Stmt
  delete_subscriber : Bytes → Stmt
  merge_row : Row → Stmt

pub record NotifyRegistry : Type 0 where
  pub registrations : List NotifyRegistration
  pub db : Db Stmt

abbrev pub channel_key : Option Bytes → Bytes
channel_key none = []
channel_key (some channel) = channel

unfoldable pub to_row : NotifyRegistration → Row
to_row r = record {
  subscriber_hash = r.subscriber_hash;
  channel_hash = channel_key r.channel_hash;
  relay_hash = r.relay_hash;
  registered = r.registered;
}

-- `read_all` on one row.
unfoldable pub of_row : Row → NotifyRegistration
of_row r = record {
  subscriber_hash = r.subscriber_hash;
  channel_hash = if is_empty r.channel_hash then none else some r.channel_hash;
  relay_hash = r.relay_hash;
  registered = r.registered;
}

unfoldable pub put_registration : NotifyRegistration → Stmt
unfolding to_row
put_registration r = put_row (to_row r)

abbrev pub same_channel : Option Bytes → Option Bytes → Bool
same_channel none none = true
same_channel none (some d) = false
same_channel (some c) none = false
same_channel (some c) (some d) = same c d

abbrev pub is_triple : Bytes → Option Bytes → Bytes → NotifyRegistration → Bool
is_triple subscriber channel relay r =
    same r.subscriber_hash subscriber
    && (same_channel r.channel_hash channel && same r.relay_hash relay)

abbrev pub is_digit : ℕ → Bool
is_digit c = leb 48 c && leb c 57 || leb 65 c && leb c 70 || leb 97 c && leb c 102

unfoldable pub validate_relay_hash : Bytes → Bool
validate_relay_hash hash = length hash == 32 && not (any (λ c. not (is_digit c)) hash)

-- The first registration with the triple is refreshed, or a new one appended; and the one written.
unfoldable pub register_in :
    Bytes
    → Option Bytes
    → Bytes
    → ℕ
    → List NotifyRegistration
    → List NotifyRegistration × NotifyRegistration
register_in subscriber channel relay now [] =
    let fresh : NotifyRegistration = record {
      subscriber_hash = subscriber;
      channel_hash = channel;
      relay_hash = relay;
      registered = now;
    } in
    (fresh ∷ [], fresh)
register_in subscriber channel relay now (r ∷ rs) =
    let (rest, written) = register_in subscriber channel relay now rs in
    if is_triple subscriber channel relay r
    then (record r { registered = now } ∷ rs, record r { registered = now })
    else (r ∷ rest, written)

unfoldable pub register : NotifyRegistry → Bytes → Option Bytes → Bytes → ℕ → NotifyRegistry
unfolding register_in put_registration
register n subscriber channel relay now =
    let (registrations, written) = register_in subscriber channel relay now n.registrations in
    record n { registrations = registrations; db = write_all n.db (put_registration written ∷ []) }

-- `retain` and the statement that goes with it, if anything went.
unfoldable pub retain : NotifyRegistry → (NotifyRegistration → Bool) → Stmt → NotifyRegistry
retain n keep statement =
    let kept = filter keep n.registrations in
    record n {
      registrations = kept;
      db =
          if ltb (length kept) (length n.registrations)
          then write_all n.db (statement ∷ [])
          else n.db;
    }

unfoldable pub unregister : NotifyRegistry → Bytes → Option Bytes → Bytes → NotifyRegistry
unfolding retain
unregister n subscriber channel relay =
    retain n (λ r. not (is_triple subscriber channel relay r))
      (delete_triple subscriber (channel_key channel) relay)

unfoldable pub clear : NotifyRegistry → Bytes → NotifyRegistry
unfolding retain
clear n subscriber =
    retain n (λ r. not (same r.subscriber_hash subscriber)) (delete_subscriber subscriber)

unfoldable pub get_for_channel : NotifyRegistry → Bytes → Option Bytes → List NotifyRegistration
get_for_channel n subscriber channel =
    filter (λ r. same r.subscriber_hash subscriber && same_channel r.channel_hash channel)
      n.registrations

abbrev pub is_lxmf : NotifyRegistration → Bool
is_lxmf r = elim r.channel_hash [ none ↦ true | some channel ↦ false ]

-- Into the registration that the new key already holds, or at the end.
unfoldable pub merge : NotifyRegistration → List NotifyRegistration → List NotifyRegistration
merge new [] = new ∷ []
merge new (r ∷ rs) =
    let rest = merge new rs in
    if is_triple new.subscriber_hash new.channel_hash new.relay_hash r
    then record r { registered = max r.registered new.registered } ∷ rs
    else r ∷ rest

module _ (notify_key : Bytes → Bytes) where
  unfoldable pub moves_of : (Bytes → Bool) → List NotifyRegistration → List NotifyRegistration
  moves_of is_identity rs =
      let lxmf_keys = map (λ r. r.subscriber_hash) (filter is_lxmf rs) in
      filter
        (λ r.
          not (is_lxmf r)
          && (is_identity r.subscriber_hash || mem (notify_key r.subscriber_hash) lxmf_keys))
        rs

  abbrev pub rekeyed : NotifyRegistration → NotifyRegistration
  rekeyed old = record old { subscriber_hash = notify_key old.subscriber_hash }

  unfoldable pub move : NotifyRegistration → List NotifyRegistration → List NotifyRegistration
  unfolding merge
  move old rs =
      merge (rekeyed old)
        (filter (λ r. not (is_triple old.subscriber_hash old.channel_hash old.relay_hash r)) rs)

  unfoldable pub move_all :
      List NotifyRegistration → List NotifyRegistration → List NotifyRegistration
  unfolding move
  move_all [] rs = rs
  move_all (old ∷ moves) rs = move_all moves (move old rs)

  unfoldable pub move_statements : List NotifyRegistration → List Stmt
  unfolding to_row
  move_statements [] = []
  move_statements (old ∷ moves) =
      merge_row (to_row (rekeyed old))
      ∷ delete_triple old.subscriber_hash (channel_key old.channel_hash) old.relay_hash
      ∷ move_statements moves

  -- `committed` says whether the database took the transaction; without a database there is none.
  unfoldable pub rekey_identity_channel_rows :
      NotifyRegistry → (Bytes → Bool) → Bool → NotifyRegistry × ℕ
  unfolding moves_of move_all move_statements
  rekey_identity_channel_rows n is_identity committed =
      let moves = moves_of is_identity n.registrations in
      let moved : NotifyRegistry = record n {
        registrations = move_all moves n.registrations;
        db = write_all n.db (move_statements moves);
      } in
      if is_empty moves then (n, 0) else elim n.db [
        | none ↦ (moved, length moves)
        | some log ↦ if committed then (moved, length moves) else (n, 0)
      ]
