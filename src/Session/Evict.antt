-- ===== src/Session/Evict.antt =====
-- `evict_others` of rfed/src/link_session.rs: which sessions are left.
use rfed.Base.{
  ◌≡◌, refl, ◌∙◌, List, [], ◌∷◌, none, Bytes, bytes_dec, same, sort, mem, mem-sort, Bool, not, ◌&&◌,
  if◌then◌else◌, arith,
}
use rfed.Dict
use rfed.Dict.{Dict, holds}
use rfed.Session.Registry.{evict_ids, remove_all, evict_others}

module _ {S : Type 0} where
  pub remove_all-Distinct :
      (ids : List Bytes) (m : Dict Bytes S)
      → Dict.Distinct bytes_dec m
      → Dict.Distinct bytes_dec (remove_all ids m)
  unfolding remove_all
  remove_all-Distinct [] m d = d
  remove_all-Distinct (id ∷ ids) m d =
      remove_all-Distinct ids (Dict.remove bytes_dec id m) (Dict.remove-Distinct bytes_dec id m d)

  pub find-remove_all :
      (ids : List Bytes) (m : Dict Bytes S) (j : Bytes)
      → Dict.Distinct bytes_dec m
      → Dict.find bytes_dec j (remove_all ids m)
        ≡ (if mem j ids then none else Dict.find bytes_dec j m)
  unfolding remove_all
  find-remove_all [] m j d = refl
  find-remove_all (id ∷ ids) m j d = ground (
    arith,
    find-remove_all ids (Dict.remove bytes_dec id m) j (Dict.remove-Distinct bytes_dec id m d),
    Dict.find-remove_self bytes_dec id m d,
    Dict.find-remove_ne bytes_dec id j m,
  )

  mem-evict_ids :
      (m : Dict Bytes S) (keep : Bytes) (predicate : S → Bool) (j : Bytes)
      → Dict.Distinct bytes_dec m
      → mem j (evict_ids m keep predicate)
        ≡ (not (same j keep) && holds predicate (Dict.find bytes_dec j m))
  unfolding evict_ids Dict.find
  mem-evict_ids [] keep predicate j d = ground arith
  mem-evict_ids ((id, x) ∷ m) keep predicate j d =
      ground (arith, mem-evict_ids m keep predicate j d.1)

  -- Of sessions under distinct link ids, exactly those that satisfy the predicate are gone, and
  -- named, the kept link's apart.
  pub find-evict_others :
      (m : Dict Bytes S) (keep : Bytes) (predicate : S → Bool) (j : Bytes)
      → Dict.Distinct bytes_dec m
      → let r = evict_others m keep predicate in
        let gone = not (same j keep) && holds predicate (Dict.find bytes_dec j m) in
        (Dict.find bytes_dec j r.0 ≡ (if gone then none else Dict.find bytes_dec j m))
        × (mem j r.1 ≡ gone)
  unfolding evict_others
  find-evict_others m keep predicate j d =
      let named = mem-sort j (evict_ids m keep predicate) ∙ mem-evict_ids m keep predicate j d in
      (ground (arith, find-remove_all (sort (evict_ids m keep predicate)) m j d, named), named)

  pub evict_others-Distinct :
      (m : Dict Bytes S) (keep : Bytes) (predicate : S → Bool)
      → Dict.Distinct bytes_dec m
      → Dict.Distinct bytes_dec (evict_others m keep predicate).0
  unfolding evict_others
  evict_others-Distinct m keep predicate d =
      remove_all-Distinct (sort (evict_ids m keep predicate)) m d
