-- ===== src/Distro/Members.antt =====
-- Who is registered in rfed/src/distro.rs, after each operation.
use rfed.Base.{
  ℕ, ◌≡◌, refl, List, [], ◌∷◌, ◌++◌, filter, any, none, some, Bytes, same, Bool, true, false, not,
  ◌&&◌, ◌||◌, mem, if◌then◌else◌, arith, Bool-cases, inl, inr, ◌∙◌,
}
use rfed.Distro.Table.{
  DistroEntry, DistroTable, is_device, new_device, register, unregister, is_distro, distinct_hashes,
  registered_distro_hashes,
}
use rfed.Distro.Announces.{
  DistroAnnounce, DistroAnnounceStore, describes, new_announce, put, remove, find_announce, get,
}

-- No device twice for one distribution list.
abbrev pub Unique : List DistroEntry → Type 0
Unique [] = Unit
Unique (e ∷ es) = (any (is_device e.distro_lxmf_hash e.device_lxmf_hash) es ≡ false) × Unique es

any-append :
    {A : Type 0} (test : A → Bool) (xs : List A) (x : A)
    → any test (xs ++ x ∷ []) ≡ (any test xs || test x)
any-append test [] x = ground arith
any-append test (y ∷ xs) x = ground (arith, any-append test xs x)

any-filter :
    (distro device d' v' : Bytes) (es : List DistroEntry)
    → any (is_device d' v') (filter (λ e. not (is_device distro device e)) es)
      ≡ (any (is_device d' v') es && not (same distro d' && same device v'))
any-filter distro device d' v' [] = refl
any-filter distro device d' v' (e ∷ es) = ground (arith, any-filter distro device d' v' es)

push-Unique :
    (distro device : Bytes) (e : DistroEntry) (es : List DistroEntry)
    → any (is_device distro device) es ≡ false
    → e.distro_lxmf_hash ≡ distro
    → e.device_lxmf_hash ≡ device
    → Unique es
    → Unique (es ++ e ∷ [])
push-Unique distro device e [] h p q u = (refl, tt)
push-Unique distro device e (x ∷ es) h p q u = (
  ground (arith, any-append (is_device x.distro_lxmf_hash x.device_lxmf_hash) es e),
  push-Unique distro device e es (ground arith) p q u.1,
)

filter-Unique :
    (distro device : Bytes) (es : List DistroEntry)
    → Unique es
    → Unique (filter (λ e. not (is_device distro device e)) es)
filter-Unique distro device [] u = tt
filter-Unique distro device (e ∷ es) u = elim (Bool-cases (is_device distro device e)) [
  | inl gone ↦ rw gone (filter-Unique distro device es u.1)
  | inr kept ↦ rw kept (
    ground (arith, any-filter distro device e.distro_lxmf_hash e.device_lxmf_hash es),
    filter-Unique distro device es u.1,
  )
]

mem-distinct_hashes :
    (distro : Bytes) (es : List DistroEntry)
    → mem distro (distinct_hashes es) ≡ any (λ e. same e.distro_lxmf_hash distro) es
unfolding distinct_hashes
mem-distinct_hashes distro [] = refl
mem-distinct_hashes distro (e ∷ es) = ground (arith, mem-distinct_hashes distro es)

abbrev pub holds_device : DistroTable → Bytes → Bytes → Bool
holds_device t distro device = any (is_device distro device) t.entries

register-holds :
    (t : DistroTable) (distro device pubkey d' v' : Bytes) (now : ℕ)
    → holds_device (register t distro device pubkey now) d' v'
      ≡ (holds_device t d' v' || (same distro d' && same device v'))
unfolding register
register-holds t distro device pubkey d' v' now =
    elim (Bool-cases (any (is_device distro device) t.entries)) [
      | inl already ↦ rw already (already_held t.entries already)
      | inr new ↦
          rw new (any-append (is_device d' v') t.entries (new_device distro device pubkey now))
    ]
  where
    already_held :
        (es : List DistroEntry)
        → any (is_device distro device) es ≡ true
        → any (is_device d' v') es
          ≡ (any (is_device d' v') es || (same distro d' && same device v'))
    already_held [] h = absurd (ground arith)
    already_held (e ∷ es) h = ground (arith, already_held es)

-- A registration adds its device to its list and no other device to any, and an unregistration
-- removes its own and no other; both keep each device once for each list; and the hashes that a
-- node counts as its own are those of the lists with a device.
pub register-holds_device :
    (t : DistroTable) (distro device pubkey d' v' : Bytes) (now : ℕ)
    → Unique t.entries
    → (holds_device (register t distro device pubkey now) d' v'
        ≡ (holds_device t d' v' || (same distro d' && same device v')))
      × (holds_device (unregister t distro device) d' v'
          ≡ (holds_device t d' v' && not (same distro d' && same device v')))
      × Unique (register t distro device pubkey now).entries
      × Unique (unregister t distro device).entries
      × (mem distro (registered_distro_hashes t) ≡ is_distro t distro)
unfolding unregister registered_distro_hashes is_distro register
register-holds_device t distro device pubkey d' v' now u = (
  register-holds t distro device pubkey d' v' now,
  any-filter distro device d' v' t.entries,
  registered,
  filter-Unique distro device t.entries u,
  mem-distinct_hashes distro t.entries,
)
  where
    registered : Unique (register t distro device pubkey now).entries
    registered = elim (Bool-cases (any (is_device distro device) t.entries)) [
      | inl already ↦ rw (already, register) u
      | inr new ↦ rw (new, register) (push-Unique distro device _ t.entries new refl refl u)
    ]

find-filter :
    (distro d' : Bytes) (as' : List DistroAnnounce)
    → find_announce d' (filter (λ a. not (describes distro a)) as')
      ≡ (if same distro d' then none else find_announce d' as')
unfolding find_announce
find-filter distro d' [] = ground arith
find-filter distro d' (a ∷ as') = ground (arith, find-filter distro d' as')

find-append :
    (d' : Bytes) (as' : List DistroAnnounce) (a : DistroAnnounce)
    → find_announce d' (as' ++ a ∷ []) ≡ elim (find_announce d' as') [
      | none ↦ if describes d' a then some a else none
      | some x ↦ some x
    ]
unfolding find_announce
find-append d' [] a = ground arith
find-append d' (x ∷ as') a = ground (arith, find-append d' as' a)

-- The announce that is replayed for a list is the last one put, until it is removed; no other list's
-- changes.
get-put :
    (s : DistroAnnounceStore) (distro announce d' : Bytes) (ratchet : Bool) (now : ℕ)
    → (get (put s distro announce ratchet now) d'
        ≡ (if same distro d' then some (new_announce distro announce ratchet now) else get s d'))
      × (get (remove s distro) d' ≡ (if same distro d' then none else get s d'))
unfolding get put remove
get-put s distro announce d' ratchet now = (
  find-append d' (filter (λ a. not (describes distro a)) s.entries)
        (new_announce distro announce ratchet now)
      ∙ ground (arith, find-filter distro d' s.entries),
  find-filter distro d' s.entries,
)
