-- ===== src/Ddc/Darwin/Silicon.antt =====
-- src/platform/ddc/darwin/m1ddc.m: arch.h on Apple Silicon. The calls of the vendored m1ddc and of
-- CoreFoundation are a record. A handle is identified with the AV service that it holds; 0 is none.
pub mod Contract
use mathlib.Core.Option
use dimmit.Base.{
  ℕ, zero, suc, ◌*◌, ◌+◌, ◌/◌, ◌%◌, ◌^◌, Bool, true, false, not, Option, none, some, List, [], ◌∷◌,
  ◌==◌, if◌then◌else◌,
}
use dimmit.Base.Int.{ℤ, pos, negsuc}
use dimmit.Base.World.{Action, pure, ◌>>=◌, ◌>>◌}
use dimmit.Ddc.{VcpValue}
use dimmit.Ddc.Sources.{word16}
use dimmit.Ddc.Darwin.{Arch}
use dimmit.Ddc.Darwin.Intel.{is_supported_feature}

-- `DisplayInfos`: the id, and all that else is said of the display, as a number.
pub record OnlineInfo : Type 0 where
  pub id : ℕ
  pub location : ℕ

-- A packet is a number, and so are the data of a reply. `display_service` and `default_service` give
-- a service that the caller has to release, or 0. `perform_read` takes the address that the reply has
-- to come from; a result other than kIOReturnSuccess is false, or `none`.
pub record AvServices (W : Type 0) : Type 0 where
  pub online_infos : Action W (List OnlineInfo)
  pub display_service : OnlineInfo → Action W ℕ
  pub default_service : Action W ℕ
  pub release : ℕ → Action W (Unit {0})
  pub calloc_handle : Action W Bool
  pub free_handle : Action W (Unit {0})
  pub create_packet : ℕ → ℕ
  pub prepare_read : ℕ → ℕ
  pub prepare_write : ℕ → ℕ → ℕ
  pub input_addr : ℕ → ℕ
  pub perform_write : ℕ → ℕ → Action W Bool
  pub perform_read : ℕ → ℕ → Action W (Option ℕ)
  pub convert : ℕ → ℤ × ℤ

-- The current value as a `uint16_t`; below 0 it is 0.
unfoldable pub current_word : ℤ → ℕ
current_word (pos n) = n % 2 ^ 16
current_word (negsuc n) = 0

-- The maximal value; where there is none, it is 100.
unfoldable pub max_word : ℤ → ℕ
max_word (pos zero) = 100
max_word (pos (suc n)) = suc n % 2 ^ 16
max_word (negsuc n) = 100

-- The values of a reply, the current one first.
unfoldable pub reply_value : ℤ × ℤ → VcpValue
reply_value v = record {
  mh = max_word v.1 / 256;
  ml = max_word v.1 % 256;
  sh = current_word v.0 / 256;
  sl = current_word v.0 % 256;
}

module _ {W : Type 0} (av : AvServices W) where
  -- The loop over the displays, up to the first with the id.
  unfoldable pub find_service : ℕ → List OnlineInfo → Action W ℕ
  find_service display_id [] = pure 0
  find_service display_id (info ∷ infos) =
      if info.id == display_id then av.display_service info else find_service display_id infos

  unfoldable pub or_default : ℕ → Action W ℕ
  or_default svc = if svc == 0 then av.default_service else pure svc

  -- With the answer of the allocator.
  unfoldable pub hold_service : ℕ → Bool → Action W (Option ℕ)
  hold_service svc false = av.release svc >> pure none
  hold_service svc true = pure (some svc)

  unfoldable pub open_service : ℕ → Action W (Option ℕ)
  open_service svc = if svc == 0 then pure none else (av.calloc_handle >>= hold_service svc)

  unfoldable pub silicon_open : ℕ → Action W (Option ℕ)
  silicon_open display_id = do
    infos ← av.online_infos
    found ← find_service display_id infos
    svc ← or_default found
    open_service svc

  unfoldable pub silicon_close : ℕ → Action W (Unit {0})
  silicon_close h = (if h == 0 then pure tt else av.release h) >> av.free_handle

  -- After the request, with whether it was written.
  unfoldable pub read_reply : ℕ → ℕ → Bool → Action W (Option VcpValue)
  read_reply h packet false = pure none
  read_reply h packet true = do
    reply ← av.perform_read h (av.input_addr packet)
    pure (Option.map (λ bytes. reply_value (av.convert bytes)) reply)

  unfoldable pub request : ℕ → ℕ → Action W (Option VcpValue)
  request h packet = av.perform_write h packet >>= read_reply h packet

  unfoldable pub silicon_get_vcp : ℕ → ℕ → Action W (Option VcpValue)
  silicon_get_vcp h feature_code =
      if h == 0
      then pure none
      else if not (is_supported_feature feature_code)
      then pure none
      else request h (av.prepare_read (av.create_packet feature_code))

  unfoldable pub silicon_set_vcp : ℕ → ℕ → ℕ → ℕ → Action W Bool
  silicon_set_vcp h feature_code hi_byte lo_byte =
      let value = word16 hi_byte lo_byte in
      if h == 0
      then pure false
      else if not (is_supported_feature feature_code)
      then pure false
      else av.perform_write h (av.prepare_write (av.create_packet feature_code) value)

  abbrev pub silicon_arch : Arch W
  silicon_arch = record {
    ddc_arch_open = silicon_open;
    ddc_arch_close = silicon_close;
    ddc_arch_get_vcp = silicon_get_vcp;
    ddc_arch_set_vcp = silicon_set_vcp;
  }
