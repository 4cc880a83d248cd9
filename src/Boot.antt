-- ===== src/Boot.antt =====
-- internal/tools/boot.go: boot_time, boot_blame and boot_critical_chain. Float64 is a type `F` with
-- the operations that the code uses: `seconds n` is `float64(n) / 1e6`.
pub mod Chain
mod Tests
use fleetmind.Common.Sort.{sort_by}
use fleetmind.Common.Int.{ℤ, ltb_ℤ, pos, pos_part}
use fleetmind.Common.Text.{Bytes, is_empty, is_seen}
use fleetmind.Sysd.{
  Bus, BootTimes, UnitInfo, unit_after, unit_timings, startup_usec, boot_times, default_target,
}
use fleetmind.Common.{
  ℕ, Bool, List, Option, if◌then◌else◌, ◌+◌, [], ltb, some, ◌^◌, ◌∷◌, false, none, ◌++◌, ◌-◌, suc,
  ◌%◌, ◌&&◌, take, ◌==◌, true, zero,
}

pub record BootTimeOut (F : Type 0) : Type 0 where
  pub firmware_sec : F
  pub loader_sec : F
  pub kernel_sec : F
  pub initrd_sec : F
  pub userspace_sec : F
  pub total_sec : F
  pub target_reached : Bytes
  pub target_reached_sec : F

module _ {F : Type 0} (zero_sec : F) (seconds : ℕ → F) (add : F → F → F) where
  -- The part of the time from `a` to `b`, if `b` is later.
  abbrev pub span_sec : ℕ → ℕ → F
  span_sec a b = if ltb a b then seconds (b - a) else zero_sec

  abbrev pub kernel_of : BootTimes → F
  kernel_of bt =
      if ltb 0 bt.initrd
      then seconds bt.initrd
      else if ltb 0 bt.userspace
      then seconds bt.userspace
      else zero_sec

  unfoldable pub compose_boot_time : BootTimes → BootTimeOut F
  compose_boot_time bt =
      let firmware = span_sec bt.loader bt.firmware in
      let loader = if ltb 0 bt.loader then seconds bt.loader else zero_sec in
      let initrd = if ltb 0 bt.initrd then span_sec bt.initrd bt.userspace else zero_sec in
      let userspace = span_sec bt.userspace bt.finish in
      record {
        firmware_sec = firmware;
        loader_sec = loader;
        kernel_sec = kernel_of bt;
        initrd_sec = initrd;
        userspace_sec = userspace;
        total_sec = add (add (add (add firmware loader) (kernel_of bt)) initrd) userspace;
        target_reached = [];
        target_reached_sec = zero_sec;
      }

-- `t.ActiveEnterMonotonicUsec - bt.UserspaceMonotonicUsec` on uint64, where both are positive.
abbrev pub reached_usec : ℕ → ℕ → ℕ
reached_usec active_enter userspace = (active_enter + 2 ^ 64 - userspace) % 2 ^ 64

module _ {F : Type 0} (zero_sec : F) (seconds : ℕ → F) (bus : Bus) where
  -- `TargetReachedSec`, which stays 0 where something cannot be read.
  unfoldable pub target_sec : Bytes → BootTimes → F
  target_sec name bt = elim (bus.get_unit name) [
    | none ↦ zero_sec
    | some path ↦ elim (unit_timings bus path name) [
      | none ↦ zero_sec
      | some t ↦
          if ltb 0 t.active_enter && ltb 0 bt.userspace
          then seconds (reached_usec t.active_enter bt.userspace)
          else zero_sec
    ]
  ]

  -- The tool; `none` stands for an error.
  unfoldable pub boot_time : (F → F → F) → (Bytes → Option Bytes) → Option (BootTimeOut F)
  boot_time add readlink = elim (boot_times bus) [
    | none ↦ none
    | some bt ↦
        let out = compose_boot_time zero_sec seconds add bt in
        let name = default_target readlink in
        some (
          if is_empty name
          then out
          else record out { target_reached = name; target_reached_sec = target_sec name bt })
  ]

pub record BlameEntry (F : Type 0) : Type 0 where
  pub unit : Bytes
  pub init_seconds : F

module _ {F : Type 0} (seconds : ℕ → F) (less : F → F → Bool) (bus : Bus) where
  unfoldable pub blame_entry : UnitInfo → List (BlameEntry F)
  blame_entry u = elim (unit_timings bus u.path u.name) [
    | none ↦ []
    | some t ↦
        if startup_usec t == 0
        then []
        else (record { unit = u.name; init_seconds = seconds (startup_usec t) }) ∷ []
  ]

  unfoldable pub blame_entries : List UnitInfo → List (BlameEntry F)
  blame_entries [] = []
  blame_entries (u ∷ us) = blame_entry u ++ blame_entries us

  abbrev pub slower : BlameEntry F → BlameEntry F → Bool
  slower a b = less b.init_seconds a.init_seconds

  -- The tool; `none` stands for an error.
  unfoldable pub boot_blame : ℤ → Option (List (BlameEntry F))
  boot_blame requested =
      let top = if ltb_ℤ requested (pos 1) then pos 50 else requested in
      if ltb_ℤ (pos 500) top then none else elim bus.list_units [
        | none ↦ none
        | some units ↦ some (take (pos_part top) (sort_by slower (blame_entries units)))
      ]

pub record ChainEntry : Type 0 where
  pub unit : Bytes
  pub active_at : ℕ
  pub startup : ℕ

-- The name and the time of the predecessor that became active latest, so far.
abbrev pub Latest : Type 0
Latest = Bytes × ℕ

module _ (bus : Bus) where
  -- The time at which a unit became active, if it can be read.
  unfoldable pub active_enter_of : Bytes → Option ℕ
  active_enter_of name = elim (bus.get_unit name) [
    | none ↦ none
    | some p ↦ elim (unit_timings bus p name) [ none ↦ none | some pt ↦ some pt.active_enter ]
  ]

  abbrev pub later_of : Bytes → Option ℕ → Latest → Latest
  later_of name none best = best
  later_of name (some when) best = if ltb best.1 when then (name, when) else best

  unfoldable pub latest : List Bytes → Latest → Latest
  latest [] best = best
  latest (name ∷ after) best = latest after (later_of name (active_enter_of name) best)

  -- Where the walk goes on from a unit, `none` for a break.
  unfoldable pub next_unit : Bytes → Option Bytes
  next_unit path = elim (unit_after bus path) [
    | none ↦ none
    | some after ↦ let name = (latest after ([], 0)).0 in if is_empty name then none else some name
  ]

  -- The loop, with what is left of `maxDepth`: the chain, and whether it ended with an error. The
  -- times are in microseconds.
  unfoldable pub walk_chain : ℕ → List Bytes → Bytes → List ChainEntry × Bool
  walk_chain zero visited cur = ([], false)
  walk_chain (suc depth) visited cur = elim (is_seen cur visited) [
    | true ↦ ([], false)
    | false ↦ elim (bus.get_unit cur) [
      | none ↦ ([], true)
      | some path ↦ elim (unit_timings bus path cur) [
        | none ↦ ([], true)
        | some t ↦
            let e : ChainEntry = record {
              unit = cur;
              active_at = t.active_enter;
              startup = startup_usec t;
            } in
            elim (next_unit path) [
              | none ↦ (e ∷ [], false)
              | some next ↦
                  let (chain, failed) = walk_chain depth (cur ∷ visited) next in (e ∷ chain, failed)
            ]
      ]
    ]
  ]

  unfoldable pub walk_critical_chain : Bytes → List ChainEntry × Bool
  walk_critical_chain = walk_chain 32 []

  -- The tool: the default target and its chain, or `none` for an error.
  unfoldable pub boot_critical_chain : (Bytes → Option Bytes) → Option (Bytes × List ChainEntry)
  boot_critical_chain readlink =
      let target = default_target readlink in
      let (chain, failed) = walk_critical_chain target in
      if failed then none else some (target, chain)
