-- ===== src/Vault/Nav/Update.antt =====
-- `update_nav` as a whole.
use programs.Prelude.{
  ℕ, ◌+◌, ◌*◌, ◌≤◌, ◌<◌, ◌≡◌, ◌⊎◌, inl, inr, arith, subst, ltb, ◌==◌, Bool-cases, if◌then◌else◌,
  some,
}
use programs.Constants.{nav_precision, max_bps}
use programs.Errors.{ok, err, custom, nav_already_updated_this_epoch, validate, bind-elim}
use programs.SafeMath.{safe_add, safe_to_u64}
use programs.Vault.{Vault, NavUpdateArgs, NavFeeShares, epoch}
use programs.Vault.Fees.{apply_pending_fees}
use programs.Vault.Invariant.{IsValid, IsSolvent, claims}
use programs.Vault.Nav.{
  accrue, assess_fees, diluted_nav, check_deviation, counted_supply, settle, record_nav, update_nav,
}
use programs.Vault.Nav.Dilution.{diluted_nav_bounds, validate_nav_deviation_bounds}

-- What an accrual does to the vault.
pub record Accrued (v : Vault) (args : NavUpdateArgs) (supply : ℕ) (w : Vault) (s : NavFeeShares)
    : Type 0 where
  pub priced :
      w.nav_per_share * (supply + s.manager_fee_shares + s.platform_fee_shares)
      ≤ args.total_assets * nav_precision
  pub changed : w ≡ record v {
    unclaimed_manager_fee_shares = v.unclaimed_manager_fee_shares + s.manager_fee_shares;
    unclaimed_platform_fee_shares = v.unclaimed_platform_fee_shares + s.platform_fee_shares;
    nav_per_share = w.nav_per_share;
    high_water_mark =
        if ltb v.high_water_mark w.nav_per_share then w.nav_per_share else v.high_water_mark;
  }
  pub tolerated : check_deviation v w.nav_per_share args.max_nav_deviation_bps ≡ ok tt

accrue-Accrued :
    (v : Vault) (args : NavUpdateArgs) (supply : ℕ) {w : Vault} {s : NavFeeShares}
    → accrue v args supply ≡ ok (w, s)
    → Accrued v args supply w s
unfolding accrue safe_add safe_to_u64
accrue-Accrued v args supply {w} {s} h =
    bind-elim (assess_fees v args supply) _ h λ (ms : ℕ × ℕ) em h₁.
      bind-elim (diluted_nav args.total_assets supply ms.0 ms.1) _ h₁ λ nav en h₂.
        let b = diluted_nav_bounds args.total_assets supply ms.0 ms.1 en in
        record { priced = ground (arith, b); changed = ground arith; tolerated = ground arith }

-- Neither the fee schedule nor the last writes of an update touch shares or prices.
record_nav_keeps :
    (u : Vault) (args : NavUpdateArgs)
    → let w = record_nav u args in
      (w.nav_per_share ≡ u.nav_per_share)
      × (w.high_water_mark ≡ u.high_water_mark)
      × (w.unclaimed_manager_fee_shares ≡ u.unclaimed_manager_fee_shares)
      × (w.unclaimed_platform_fee_shares ≡ u.unclaimed_platform_fee_shares)
      × (w.total_assets ≡ args.total_assets)
unfolding record_nav apply_pending_fees
record_nav_keeps u args = ground arith

-- The two outcomes of `settle`.
abbrev pub Settled : Vault → NavUpdateArgs → ℕ → Vault → NavFeeShares → Type 0
Settled v args supply u s =
    ((supply ≡ 0)
      × (u ≡ record v { nav_per_share = nav_precision })
      × (s ≡ record { manager_fee_shares = 0; platform_fee_shares = 0 }))
    ⊎ ((0 < supply) × Accrued v args supply u s)

settle-Settled :
    (v : Vault) (args : NavUpdateArgs) (supply : ℕ) {u : Vault} {s : NavFeeShares}
    → settle v args supply ≡ ok (u, s)
    → Settled v args supply u s
unfolding settle
settle-Settled v args supply h = elim (Bool-cases (supply == 0)) [
  | inl z ↦ inl (ground arith)
  | inr nz ↦ inr (ground arith, accrue-Accrued v args supply (ground arith))
]

counted_supply-claims :
    (v : Vault) (supply : ℕ) {n : ℕ} → counted_supply v supply ≡ ok n → n ≡ claims v supply
unfolding counted_supply safe_add
counted_supply-claims v supply h = ground arith

-- A successful update: its epoch test, its settlement, its last writes.
pub record Updated (v : Vault) (args : NavUpdateArgs) (w : Vault) (s : NavFeeShares) : Type 0 where
  pub settled_vault : Vault
  pub later : v.nav_epoch < epoch args.now
  pub settled : Settled v args (claims v args.share_supply) settled_vault s
  pub recorded : w ≡ record_nav settled_vault args

pub update_nav-Updated :
    (v : Vault) (args : NavUpdateArgs) {w : Vault} {s : NavFeeShares}
    → update_nav v args ≡ ok (w, s)
    → Updated v args w s
unfolding update_nav validate
update_nav-Updated v args {w} {s} h =
    bind-elim (validate (ltb v.nav_epoch (epoch args.now)) nav_already_updated_this_epoch) _ h
      λ u later h₁. bind-elim (counted_supply v args.share_supply) _ h₁ λ supply es h₂.
        bind-elim (settle v args supply) _ h₂ λ (r : Vault × NavFeeShares) er h₃. record {
          settled_vault = r.0;
          later = ground arith;
          settled =
              settle-Settled v args (claims v args.share_supply)
                (ground (arith, counted_supply-claims v args.share_supply es));
          recorded = ground arith;
        }

-- A successful NAV update leaves the vault solvent, in whatever state it was: at the recorded NAV,
-- the reported share supply with all unclaimed fee shares, those of this update included, is worth
-- no more than the recorded assets.
pub update_nav-IsSolvent :
    (v : Vault) (args : NavUpdateArgs) {w : Vault} {s : NavFeeShares}
    → update_nav v args ≡ ok (w, s)
    → IsSolvent w args.share_supply
update_nav-IsSolvent v args h =
    let up = update_nav-Updated v args h in
    elim up.settled [
      | inl (z, eu, es) ↦ ground (arith, record_nav_keeps up.settled_vault args, up.recorded)
      | inr (pos, acc) ↦
          ground
            (arith, record_nav_keeps up.settled_vault args, up.recorded, acc.priced, acc.changed)
    ]

-- A successful NAV update keeps a valid vault valid: the NAV is at most the high water mark, every
-- fee rate is at most 100%, and the epoch is that of the last update. It never lowers the high
-- water mark.
pub update_nav-IsValid :
    (v : Vault) (args : NavUpdateArgs) {w : Vault} {s : NavFeeShares}
    → IsValid v
    → update_nav v args ≡ ok (w, s)
    → IsValid w × (v.high_water_mark ≤ w.high_water_mark)
unfolding record_nav apply_pending_fees
update_nav-IsValid v args i h =
    let up = update_nav-Updated v args h in
    elim up.settled [
      | inl (z, eu, es) ↦ ground (arith, up.recorded)
      | inr (pos, acc) ↦ ground (arith, up.recorded, acc.changed)
    ]

-- A successful NAV update ends in a later epoch than the vault was in, that of its own time,
-- records the time and the reported assets, and resets the outflow of the epoch.
pub update_nav_stamps :
    (v : Vault) (args : NavUpdateArgs) {w : Vault} {s : NavFeeShares}
    → update_nav v args ≡ ok (w, s)
    → (v.nav_epoch < w.nav_epoch)
      × (w.nav_epoch ≡ epoch args.now)
      × (w.last_nav_ts ≡ args.now)
      × (w.total_assets ≡ args.total_assets)
      × (w.epoch_outflow ≡ 0)
unfolding record_nav apply_pending_fees
update_nav_stamps v args h =
    let up = update_nav-Updated v args h in ground (arith, up.recorded, up.later)

-- After a successful NAV update, any further one whose time falls in the same epoch is refused,
-- with the error for an epoch already updated.
pub update_nav_once :
    (v : Vault) (args later : NavUpdateArgs) {w : Vault} {s : NavFeeShares}
    → update_nav v args ≡ ok (w, s)
    → epoch later.now ≡ epoch args.now
    → update_nav w later ≡ err (custom nav_already_updated_this_epoch)
unfolding update_nav validate
update_nav_once v args later {w} h e = ground (arith, update_nav_stamps v args h)

-- The two unclaimed fee share counters grow in a successful NAV update by exactly the fee shares
-- that it returns.
pub update_nav_accrues :
    (v : Vault) (args : NavUpdateArgs) {w : Vault} {s : NavFeeShares}
    → update_nav v args ≡ ok (w, s)
    → (w.unclaimed_manager_fee_shares ≡ v.unclaimed_manager_fee_shares + s.manager_fee_shares)
      × (w.unclaimed_platform_fee_shares ≡ v.unclaimed_platform_fee_shares + s.platform_fee_shares)
update_nav_accrues v args h =
    let up = update_nav-Updated v args h in
    elim up.settled [
      | inl (z, eu, es) ↦ ground (arith, record_nav_keeps up.settled_vault args, up.recorded)
      | inr (pos, acc) ↦
          ground (arith, record_nav_keeps up.settled_vault args, up.recorded, acc.changed)
    ]

-- With a deviation bound given and the counted supply not zero, a successful NAV update moves the
-- NAV, up or down, by at most that many basis points of the old one.
pub update_nav_deviation :
    (v : Vault) (args : NavUpdateArgs) (bps : ℕ) {w : Vault} {s : NavFeeShares}
    → args.max_nav_deviation_bps ≡ some bps
    → 0 < claims v args.share_supply
    → update_nav v args ≡ ok (w, s)
    → (w.nav_per_share * max_bps ≤ v.nav_per_share * (max_bps + bps))
      × (v.nav_per_share * max_bps ≤ w.nav_per_share * max_bps + v.nav_per_share * bps)
unfolding check_deviation
update_nav_deviation v args bps {w} e p h =
    let up = update_nav-Updated v args h in
    let kept = record_nav_keeps up.settled_vault args in
    elim up.settled [
      | inl (z, _, _) ↦ absurd (omega arith)
      | inr (_, acc) ↦
          let at_most = validate_nav_deviation_bounds v up.settled_vault.nav_per_share bps (
            subst (λ o. check_deviation v up.settled_vault.nav_per_share o ≡ ok tt) e
              acc.tolerated) in
          ground (arith, kept, up.recorded, at_most)
    ]
