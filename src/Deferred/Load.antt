-- ===== src/Deferred/Load.antt =====
-- `load` and `read_all` of rfed/src/deferred_queue.rs: the queue as a start finds it.
use rfed.Base.{
  ℕ, suc, ◌+◌, ◌^◌, ◌<◌, ◌≡◌, refl, List, [], ◌∷◌, none, Bytes, bytes_dec, arith, ◌&&◌,
  if◌then◌else◌, length, ltb, leb,
}
use rfed.Dict
use rfed.Dict.{Dict, sum_by}
use rfed.Deferred.State.{PendingBlob, DeferredQueue, push_back, total_len, increment}
use rfed.Store.{Db}
use rfed.Deferred.State.{Stmt}
use rfed.Deferred.Weight.{weigh, weigh_queue, weigh_queue-push_back, weigh_queue-length}
use rfed.Deferred.Pages.{increment-suc}
use rfed.Deferred.Buckets.{push_back-Distinct}
use rfed.Deferred.Tickets.{IsValid, at_ticket}

-- A row of the table in rowid order, or an entry of the old file (with id 0 then).
pub record Row : Type 0 where
  pub id : ℕ
  pub subscriber_hash : Bytes
  pub channel_hash : Bytes
  pub blob : Bytes
  pub enqueued_at : ℕ

unfoldable pub read_row : Row → PendingBlob
read_row r = record {
  channel_hash = r.channel_hash;
  blob = r.blob;
  enqueued_at = r.enqueued_at;
  id = r.id;
  ticket = 0;
}

unfoldable pub read_all : List Row → Dict Bytes (List PendingBlob) → Dict Bytes (List PendingBlob)
unfolding read_row
read_all [] m = m
read_all (r ∷ rows) m = read_all rows (push_back r.subscriber_hash (read_row r) m)

-- The tickets from `next` on for a bucket, then for the map, and the next ticket after them.
unfoldable pub number_bucket : ℕ → List PendingBlob → ℕ × List PendingBlob
number_bucket next [] = (next, [])
number_bucket next (e ∷ es) =
    let (after, rest) = number_bucket (increment next) es in
    (after, record e { ticket = next } ∷ rest)

unfoldable pub number_all : ℕ → Dict Bytes (List PendingBlob) → ℕ × Dict Bytes (List PendingBlob)
unfolding number_bucket
number_all next [] = (next, [])
number_all next ((s, bucket) ∷ m) =
    let (middle, bucket') = number_bucket next bucket in
    let (after, rest) = number_all middle m in (after, (s, bucket') ∷ rest)

unfoldable pub load : Db Stmt → List Row → DeferredQueue
load db rows =
    let (next_ticket, queue) = number_all 1 (read_all rows []) in
    record {
      queue = queue;
      held = [];
      next_page = 1;
      next_ticket = next_ticket;
      in_flight = [];
      db = db;
      global_limit = 4096;
    }

abbrev between : ℕ → ℕ → ℕ → ℕ
between lo hi t = if leb lo t && ltb t hi then 1 else 0

number_bucket_lem :
    (next : ℕ) (es : List PendingBlob)
    → next + length es < 2 ^ 64
    → ((number_bucket next es).0 ≡ next + length es)
      × ((s : Bytes) (t : ℕ)
          → weigh (at_ticket t s) (number_bucket next es).1 ≡ between next (next + length es) t)
unfolding number_bucket
number_bucket_lem next [] h = (omega arith, λ s t. ground arith)
number_bucket_lem next (e ∷ es) h =
    let up : increment next ≡ suc next = increment-suc next (omega arith) in
    let ih = number_bucket_lem (increment next) es (omega arith) in
    (omega (arith, ih.0), λ s t. ground (arith, ih.1 s t))

size : Dict Bytes (List PendingBlob) → ℕ
size = sum_by (λ _ bucket. length bucket)

number_all_lem :
    (next : ℕ) (m : Dict Bytes (List PendingBlob))
    → next + size m < 2 ^ 64
    → ((number_all next m).0 ≡ next + size m)
      × ((t : ℕ) → weigh_queue (at_ticket t) (number_all next m).1 ≡ between next (next + size m) t)
unfolding number_all size
number_all_lem next [] h = (omega arith, λ t. ground arith)
number_all_lem next ((s, bucket) ∷ m) h =
    let here = number_bucket_lem next bucket (omega arith) in
    let rest = number_all_lem (number_bucket next bucket).0 m (omega (arith, here.0)) in
    (omega (arith, here.0, rest.0), λ t. ground (arith, here.0, here.1 s t, rest.1 t))

number_all-none :
    (next : ℕ) (s : Bytes) (m : Dict Bytes (List PendingBlob))
    → Dict.find bytes_dec s m ≡ none
    → Dict.find bytes_dec s (number_all next m).1 ≡ none
unfolding number_all Dict.find
number_all-none next s [] h = refl
number_all-none next s ((j, bucket) ∷ m) h =
    ground (arith, number_all-none (number_bucket next bucket).0 s m)

number_all-Distinct :
    (next : ℕ) (m : Dict Bytes (List PendingBlob))
    → Dict.Distinct bytes_dec m
    → Dict.Distinct bytes_dec (number_all next m).1
unfolding number_all
number_all-Distinct next [] d = tt
number_all-Distinct next ((j, bucket) ∷ m) d = (
  number_all-none (number_bucket next bucket).0 j m d.0,
  number_all-Distinct (number_bucket next bucket).0 m d.1,
)

read_all-Distinct :
    (rows : List Row) (m : Dict Bytes (List PendingBlob))
    → Dict.Distinct bytes_dec m
    → Dict.Distinct bytes_dec (read_all rows m)
unfolding read_all
read_all-Distinct [] m d = d
read_all-Distinct (r ∷ rows) m d =
    read_all-Distinct rows _ (push_back-Distinct r.subscriber_hash _ m d)

weigh_rows : (Bytes → PendingBlob → ℕ) → List Row → ℕ
weigh_rows w [] = 0
weigh_rows w (r ∷ rows) = w r.subscriber_hash (read_row r) + weigh_rows w rows

weigh_queue-read_all :
    (w : Bytes → PendingBlob → ℕ) (rows : List Row) (m : Dict Bytes (List PendingBlob))
    → weigh_queue w (read_all rows m) ≡ weigh_queue w m + weigh_rows w rows
unfolding read_all weigh_rows
weigh_queue-read_all w [] m = omega arith
weigh_queue-read_all w (r ∷ rows) m = omega (
  arith,
  weigh_queue-read_all w rows (push_back r.subscriber_hash (read_row r) m),
  weigh_queue-push_back w r.subscriber_hash (read_row r) m,
)

weigh_rows-length : (rows : List Row) → weigh_rows (λ _ _. 1) rows ≡ length rows
unfolding weigh_rows
weigh_rows-length [] = refl
weigh_rows-length (r ∷ rows) = omega (arith, weigh_rows-length rows)

size-read_all : (rows : List Row) → size (read_all rows []) ≡ length rows
unfolding size
size-read_all rows = omega (
  arith,
  weigh_queue-length (read_all rows []),
  weigh_queue-read_all (λ _ _. 1) rows [],
  weigh_rows-length rows,
)

length-number_bucket :
    (next : ℕ) (es : List PendingBlob) → length (number_bucket next es).1 ≡ length es
unfolding number_bucket
length-number_bucket next [] = refl
length-number_bucket next (e ∷ es) = omega (arith, length-number_bucket (increment next) es)

size-number_all :
    (next : ℕ) (m : Dict Bytes (List PendingBlob)) → size (number_all next m).1 ≡ size m
unfolding number_all size
size-number_all next [] = refl
size-number_all next ((s, bucket) ∷ m) =
    omega (arith, length-number_bucket next bucket, size-number_all (number_bucket next bucket).0 m)

-- From any rows, fewer than 2 ^ 64 - 1, a start makes a valid queue that holds as many entries as
-- there are rows: one bucket for each subscriber, page ids and tickets distinct and issued.
pub load-IsValid :
    (db : Db Stmt) (rows : List Row)
    → length rows + 1 < 2 ^ 64
    → IsValid (load db rows) × (total_len (load db rows) ≡ length rows)
unfolding load total_len size Dict.find
load-IsValid db rows fits = (
  record {
    one_bucket = number_all-Distinct 1 (read_all rows []) (read_all-Distinct rows [] tt);
    page_ids = (tt, λ id h. refl);
    tickets = record {
      once = λ t. ground (arith, numbered.1 t);
      issued = λ t h. ground (arith, numbered.0, numbered.1 t);
    };
  },
  omega (arith, size-number_all 1 (read_all rows []), size-read_all rows),
)
  where
    numbered :
        ((number_all 1 (read_all rows [])).0 ≡ 1 + size (read_all rows []))
        × ((t : ℕ)
            → weigh_queue (at_ticket t) (number_all 1 (read_all rows [])).1
              ≡ between 1 (1 + size (read_all rows [])) t)
    numbered = number_all_lem 1 (read_all rows []) (omega (arith, size-read_all rows))
