-- ===== src/Input.antt =====
-- src/platform/input/darwin.c: the brightness keys of macOS, as steps for the daemon.
pub mod Darwin
pub mod Windows
use dimmit.Base.{ℕ, Bool, not, Option, none, some, ◌==◌, if◌then◌else◌}
use dimmit.Base.Int.{ℤ, pos, negsuc, eqb_ℤ}
use dimmit.Dimmer.{Fraction}

abbrev pub consumer_page : ℕ
consumer_page = 0x0C

abbrev pub brightness_up_usage : ℕ
brightness_up_usage = 0x6F

abbrev pub brightness_down_usage : ℕ
brightness_down_usage = 0x70

-- What is passed to `g_on_adjust`, if anything is, for a value of an element with this page and
-- usage; `registered` says that `g_on_adjust` is set.
unfoldable pub value_cb : Bool → ℤ → ℕ → ℕ → Option Fraction
value_cb registered value usage_page usage =
    if eqb_ℤ value (pos 0)
    then none
    else if not (usage_page == consumer_page)
    then none
    else if not registered
    then none
    else if usage == brightness_up_usage
    then some (record { num = pos 1; exp = 4 })
    else if usage == brightness_down_usage
    then some (record { num = negsuc 0; exp = 4 })
    else none

-- `input_start` where there is no capture of keys.
abbrev pub linux_input_start : ℤ
linux_input_start = negsuc 0

abbrev pub netbsd_input_start : ℤ
netbsd_input_start = negsuc 0
