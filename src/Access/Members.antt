-- ===== src/Access/Members.antt =====
-- Whom the access control of Linux and NetBSD admits (src/platform/access-control/).
use dimmit.Base.{
  ℕ, ◌≡◌, ◌↔◌, ◌⊎◌, inl, inr, refl, Bool, true, some, List, [], ◌∷◌, arith, leb, if◌then◌else◌,
  length, Bool-cases,
}
use dimmit.Access.{
  GroupList, listed, overflow, Accounts, name_of, is_primary, is_listed, second_try, first_try,
  is_member, admits, is_authorized,
}

-- What `getgrouplist` documents: the whole list where it fits, else how long it is.
abbrev pub fitting : List ℕ → ℕ → GroupList
fitting groups n = if leb (length groups) n then listed groups else overflow (length groups)

abbrev pub Among : ℕ → List ℕ → Type 0
Among gid [] = ⊥
Among gid (g ∷ groups) = (g ≡ gid) ⊎ Among gid groups

is_listed-Among : (gid : ℕ) (groups : List ℕ) → (is_listed gid groups ≡ true) ↔ Among gid groups
unfolding is_listed
is_listed-Among gid [] = ground arith
is_listed-Among gid (g ∷ groups) = ground (arith, is_listed-Among gid groups)

leb_refl : (n : ℕ) → leb n n ≡ true
leb_refl n = ground arith

fitting_self : (groups : List ℕ) → fitting groups (length groups) ≡ listed groups
fitting_self groups = rw (leb_refl (length groups)) refl

either :
    (primary : Bool) (gid : ℕ) (groups : List ℕ)
    → ((if primary then true else is_listed gid groups) ≡ true)
      ↔ ((primary ≡ true) ⊎ Among gid groups)
either primary gid groups = ground (arith, is_listed-Among gid groups)

module _ (a : Accounts) (groups : List ℕ → ℕ → List ℕ) where
  -- The first buffer is large enough, or the second is.
  first_try-listed :
      ((uname : List ℕ) (peer_gid n : ℕ)
        → a.getgrouplist uname peer_gid n ≡ fitting (groups uname peer_gid) n)
      → a.realloc_ok ≡ true
      → (uname : List ℕ) (peer_gid gid n : ℕ)
      → first_try a uname peer_gid gid (a.getgrouplist uname peer_gid n)
        ≡ is_listed gid (groups uname peer_gid)
  unfolding first_try second_try
  first_try-listed documented grows uname peer_gid gid n = by_size (groups uname peer_gid) refl
    where
      by_size :
          (gs : List ℕ)
          → groups uname peer_gid ≡ gs
          → first_try a uname peer_gid gid (a.getgrouplist uname peer_gid n) ≡ is_listed gid gs
      by_size gs e = elim (Bool-cases (leb (length gs) n)) [
        | inl fits ↦ rw (documented uname peer_gid n, e, fits) refl
        | inr large ↦
            rw
              (
                documented uname peer_gid n,
                e,
                large,
                grows,
                documented uname peer_gid (length gs),
                e,
                fitting_self gs,
              )
              refl
      ]

  -- Where the group exists, `getgrouplist` gives the whole list if it fits and its length if not,
  -- and the allocations succeed, a client is admitted exactly if its primary group is the group or
  -- the group is in its list, however long.
  pub is_authorized-members :
      (group : List ℕ) (uid peer_gid gid : ℕ)
      → ((uname : List ℕ) (peer_gid n : ℕ)
          → a.getgrouplist uname peer_gid n ≡ fitting (groups uname peer_gid) n)
      → a.malloc_ok ≡ true
      → a.realloc_ok ≡ true
      → a.getgrnam group ≡ some gid
      → (is_authorized a group (some (uid, peer_gid)) ≡ true) ↔ (
          (is_primary (a.getpwuid uid) gid ≡ true)
          ⊎ Among gid (groups (name_of (a.getpwuid uid)) peer_gid))
  unfolding is_authorized admits is_member
  is_authorized-members group uid peer_gid gid documented room grows exists =
      rw
        (exists, first_try-listed documented grows (name_of (a.getpwuid uid)) peer_gid gid 32, room)
        (either (is_primary (a.getpwuid uid) gid) gid (groups (name_of (a.getpwuid uid)) peer_gid))
