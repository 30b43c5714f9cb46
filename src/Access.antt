-- ===== src/Access.antt =====
-- src/platform/access-control/{linux,netbsd,darwin,windows,mock}.c: who may drive the brightness. The
-- account database, the peer's credentials and the results of the system calls come from outside.
pub mod Members
use dimmit.Base.{
  ℕ, ◌+◌, ◌*◌, ◌^◌, Bool, true, false, ◌&&◌, not, Option, none, some, List, [], ◌∷◌, ◌==◌,
  if◌then◌else◌, codes,
}

-- `struct passwd`
pub record Passwd : Type 0 where
  pub pw_name : List ℕ
  pub pw_gid : ℕ

-- `getgrouplist`: the groups, or -1 with the number of groups.
pub data GroupList : Type 0 where
  listed : List ℕ → GroupList
  overflow : ℕ → GroupList

pub record Accounts : Type 0 where
  pub getgrnam : List ℕ → Option ℕ
  pub getpwuid : ℕ → Option Passwd
  pub getgrouplist : List ℕ → ℕ → ℕ → GroupList
  pub malloc_ok : Bool
  pub realloc_ok : Bool

abbrev pub name_of : Option Passwd → List ℕ
name_of none = []
name_of (some pw) = pw.pw_name

unfoldable pub is_primary : Option Passwd → ℕ → Bool
is_primary none gid = false
is_primary (some pw) gid = pw.pw_gid == gid

-- The loop over the groups.
unfoldable pub is_listed : ℕ → List ℕ → Bool
is_listed gid [] = false
is_listed gid (g ∷ groups) = if g == gid then true else is_listed gid groups

-- The result of the second `getgrouplist`.
unfoldable pub second_try : ℕ → GroupList → Bool
second_try gid (listed groups) = is_listed gid groups
second_try gid (overflow n) = false

module _ (a : Accounts) where
  -- The result of the first `getgrouplist`, and what follows.
  unfoldable pub first_try : List ℕ → ℕ → ℕ → GroupList → Bool
  first_try uname peer_gid gid (listed groups) = is_listed gid groups
  first_try uname peer_gid gid (overflow n) =
      a.realloc_ok && second_try gid (a.getgrouplist uname peer_gid n)

  unfoldable pub is_member : Option Passwd → ℕ → ℕ → Bool
  is_member pw peer_gid gid =
      if is_primary pw gid
      then true
      else a.malloc_ok
        && first_try (name_of pw) peer_gid gid (a.getgrouplist (name_of pw) peer_gid 32)

  -- With the group that `getgrnam` finds.
  unfoldable pub admits : Option ℕ → ℕ → ℕ → Bool
  admits none uid peer_gid = true
  admits (some gid) uid peer_gid = is_member (a.getpwuid uid) peer_gid gid

  -- `access_control_is_authorized`, with the group that it checks and the credentials of the peer.
  unfoldable pub is_authorized : List ℕ → Option (ℕ × ℕ) → Bool
  is_authorized group none = false
  is_authorized group (some (uid, peer_gid)) = admits (a.getgrnam group) uid peer_gid

  unfoldable pub linux_is_authorized : Option (ℕ × ℕ) → Bool
  linux_is_authorized peer = is_authorized (codes "i2c") peer

  unfoldable pub netbsd_is_authorized : Option (ℕ × ℕ) → Bool
  netbsd_is_authorized peer = is_authorized (codes "wheel") peer

unfoldable pub darwin_is_authorized : Option (ℕ × ℕ) → Bool
darwin_is_authorized peer = true

unfoldable pub windows_is_authorized : Option (ℕ × ℕ) → Bool
windows_is_authorized peer = true

-- `access_control_before_bind`, with the effective user id.
unfoldable pub linux_before_bind : ℕ → Bool
linux_before_bind euid = euid == 0

unfoldable pub netbsd_before_bind : ℕ → Bool
netbsd_before_bind euid = true

unfoldable pub darwin_before_bind : ℕ → Bool
darwin_before_bind euid = true

unfoldable pub windows_before_bind : ℕ → Bool
windows_before_bind euid = true

-- Owner, group and mode of the socket's path.
pub record SocketFile : Type 0 where
  pub owner : ℕ
  pub group : ℕ
  pub mode : ℕ

-- 0660
abbrev pub shared_mode : ℕ
shared_mode = 6 * 8 ^ 2 + 6 * 8

-- `chmod`, with whether it succeeds.
unfoldable pub change_mode : Bool → SocketFile → Bool × SocketFile
change_mode chmod_ok file =
    if chmod_ok then (true, record file { mode = shared_mode }) else (false, file)

-- `access_control_after_bind` of Linux, with the group "i2c" and whether `chown` and `chmod` succeed.
unfoldable pub linux_after_bind : Option ℕ → Bool → Bool → SocketFile → Bool × SocketFile
linux_after_bind none chown_ok chmod_ok file = change_mode chmod_ok file
linux_after_bind (some gid) chown_ok chmod_ok file =
    if chown_ok
    then change_mode chmod_ok (record file { owner = 0; group = gid })
    else (false, file)

unfoldable pub netbsd_after_bind : Bool → SocketFile → Bool × SocketFile
netbsd_after_bind chmod_ok file = change_mode chmod_ok file

unfoldable pub darwin_after_bind : Bool → SocketFile → Bool × SocketFile
darwin_after_bind chmod_ok file = change_mode chmod_ok file

unfoldable pub windows_after_bind : SocketFile → Bool × SocketFile
windows_after_bind file = (true, file)

-- The backend of the tests, with the answer that they set.
abbrev pub mock_before_bind : Bool
mock_before_bind = true

unfoldable pub mock_after_bind : SocketFile → Bool × SocketFile
mock_after_bind file = (true, file)

unfoldable pub mock_is_authorized : ℕ → Bool
mock_is_authorized authorized = not (authorized == 0)
