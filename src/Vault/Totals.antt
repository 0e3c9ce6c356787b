-- ===== src/Vault/Totals.antt =====
-- The vault's totals against the providers' entries and the tokens moved, over every sequence of
-- calls.
use vortex_contracts.Base.{ℕ, ◌+◌, ◌-◌, ◌≡◌, ◌≢◌, ◌≤◌, Bool, none, some, [], arith, ok, inl, inr}
use vortex_contracts.Base.Int.{ℤ}
use vortex_contracts.Base.Dict.{Dict, put, sum_by, sum_by-put}
use vortex_contracts.Base.Token.{Host, paid_in, paid_out}
use vortex_contracts.Vault.Model.{
  Vault, virtual_shares, virtual_assets, balance, load_total_assets, load_total_shares, initialize,
  deposit, withdraw, process_queued_withdrawal, cover, receive_income, rescue_tokens,
  set_emergency_mode, set_config,
}
use vortex_contracts.Vault.Success.{
  deposit-eq-ok, CanWithdraw, Queued, Paid, withdraw-eq-ok, process-eq-ok, cover-eq-ok,
  receive_income-eq-ok, rescue_tokens-eq-ok,
}

abbrev pub amount_of : ℕ → ℕ
amount_of n = n

pub record Sound (this token : ℕ) (s : Vault) : Type 0 where
  pub shares_exact : load_total_shares s ≡ virtual_shares + sum_by amount_of s.shares
  pub queue_exact : s.total_queued ≡ sum_by amount_of s.withdraw_queue
  pub assets_exact :
      load_total_assets s + paid_out this token s.calls
      ≡ virtual_assets + paid_in this token s.calls + s.total_income
  pub token_set : s.bond_token ≡ some token
  pub admin : ℕ
  pub admin_set : s.admin ≡ some admin

-- One successful call. The vault itself is no liquidity provider.
pub data Step (this : ℕ) (s s' : Vault) : Type 0 where
  initialized : (e : Host) (a t m : ℕ) → initialize e a t m s ≡ ok s' → Step this s s'
  deposited :
      (e : Host) (lp : ℕ) (m : ℤ) (n : ℕ)
      → e.this ≡ this
      → lp ≢ this
      → deposit e lp m s ≡ ok (n, s')
      → Step this s s'
  withdrawn :
      (e : Host) (lp : ℕ) (m : ℤ) (n : ℕ)
      → e.this ≡ this
      → withdraw e lp m s ≡ ok (n, s')
      → Step this s s'
  processed :
      (e : Host) (lp : ℕ)
      → e.this ≡ this
      → process_queued_withdrawal e lp s ≡ ok s'
      → Step this s s'
  covered : (e : Host) (m : ℤ) (to : ℕ) → e.this ≡ this → cover e m to s ≡ ok s' → Step this s s'
  earned : (e : Host) (m : ℤ) → receive_income e m s ≡ ok s' → Step this s s'
  rescued :
      (e : Host) (token : ℕ) (m : ℤ) (to : ℕ)
      → e.this ≡ this
      → rescue_tokens e token m to s ≡ ok s'
      → Step this s s'
  switched : (e : Host) (b : Bool) → set_emergency_mode e b s ≡ ok s' → Step this s s'
  configured : (e : Host) (m : ℤ) (c : ℕ) → set_config e m c s ≡ ok s' → Step this s s'

pub data Reach (this : ℕ) (s : Vault) : Vault → Type 0 where
  here : Reach this s s
  next : {t u : Vault} → Reach this s t → Step this t u → Reach this s u

-- What the burned shares leave.
burned :
    (d : Dict ℕ) (lp n : ℕ)
    → n ≤ balance d lp
    → sum_by amount_of (put d lp (balance d lp - n)) + n ≡ sum_by amount_of d
burned d lp n h = ground (arith, sum_by-put amount_of d lp (balance d lp - n), h)

raised :
    (d : Dict ℕ) (lp n : ℕ)
    → sum_by amount_of (put d lp (balance d lp + n)) ≡ sum_by amount_of d + n
raised d lp n = ground (arith, sum_by-put amount_of d lp (balance d lp + n))

cleared : (d : Dict ℕ) (lp : ℕ) → sum_by amount_of (put d lp 0) + balance d lp ≡ sum_by amount_of d
cleared d lp = ground (arith, sum_by-put amount_of d lp 0)

module _ (this token : ℕ) (e : Host) {s s' : Vault} (c : Sound this token s)
    (t : e.this ≡ this) where
  deposit-Sound :
      (lp : ℕ) (m : ℤ) {n : ℕ} → lp ≢ this → deposit e lp m s ≡ ok (n, s') → Sound this token s'
  unfolding load_total_assets load_total_shares paid_in paid_out
  deposit-Sound lp m o h =
      let (d, p, k, w) = deposit-eq-ok e s lp m h in
      record {
        shares_exact = ground (arith, w, c.shares_exact, raised s.shares lp d.minted);
        queue_exact = ground (arith, w, c.queue_exact);
        assets_exact = ground (arith, w, c.assets_exact, t, o, p.token_found, c.token_set);
        token_set = ground (arith, w, c.token_set);
        admin = c.admin;
        admin_set = ground (arith, w, c.admin_set);
      }

  Queued-Sound :
      (lp n out : ℕ) → CanWithdraw e s lp n out → Queued e s lp n out s' → Sound this token s'
  unfolding load_total_assets load_total_shares paid_in paid_out
  Queued-Sound lp n out p q = record {
    shares_exact = ground (arith, q.after, c.shares_exact, burned s.shares lp n p.covered);
    queue_exact = ground (arith, q.after, c.queue_exact, raised s.withdraw_queue lp out);
    assets_exact = ground (arith, q.after, c.assets_exact);
    token_set = ground (arith, q.after, c.token_set);
    admin = c.admin;
    admin_set = ground (arith, q.after, c.admin_set);
  }

  Paid-Sound :
      (lp n out : ℕ) → CanWithdraw e s lp n out → Paid e s lp n out s' → Sound this token s'
  unfolding load_total_assets load_total_shares paid_in paid_out
  Paid-Sound lp n out p q = record {
    shares_exact = ground (arith, q.after, c.shares_exact, burned s.shares lp n p.covered);
    queue_exact = ground (arith, q.after, c.queue_exact);
    assets_exact =
        ground (arith, q.after, c.assets_exact, q.solvent, q.token_found, c.token_set, t);
    token_set = ground (arith, q.after, c.token_set);
    admin = c.admin;
    admin_set = ground (arith, q.after, c.admin_set);
  }

  withdraw-Sound :
      (lp : ℕ) (m : ℤ) {out : ℕ} → withdraw e lp m s ≡ ok (out, s') → Sound this token s'
  withdraw-Sound lp m {out} h =
      let (n, k, p, way) = withdraw-eq-ok e s lp m h in
      elim way [ inl q ↦ Queued-Sound lp n out p q | inr q ↦ Paid-Sound lp n out p q ]

  process-Sound : (lp : ℕ) → process_queued_withdrawal e lp s ≡ ok s' → Sound this token s'
  unfolding load_total_assets load_total_shares paid_in paid_out
  process-Sound lp h =
      let (tok, p, q, w) = process-eq-ok e s lp h in
      record {
        shares_exact = ground (arith, w, c.shares_exact);
        queue_exact = ground (arith, w, c.queue_exact, cleared s.withdraw_queue lp);
        assets_exact = ground (arith, w, c.assets_exact, p, c.token_set, t);
        token_set = ground (arith, w, c.token_set);
        admin = c.admin;
        admin_set = ground (arith, w, c.admin_set);
      }

  cover-Sound : (m : ℤ) (to : ℕ) → cover e m to s ≡ ok s' → Sound this token s'
  unfolding load_total_assets load_total_shares paid_in paid_out
  cover-Sound m to h =
      let (n, tok, k, p, w) = cover-eq-ok e s m to h in
      record {
        shares_exact = ground (arith, w, c.shares_exact);
        queue_exact = ground (arith, w, c.queue_exact);
        assets_exact = ground (arith, w, c.assets_exact, p, c.token_set, t);
        token_set = ground (arith, w, c.token_set);
        admin = c.admin;
        admin_set = ground (arith, w, c.admin_set);
      }

  rescue_tokens-Sound :
      (tok : ℕ) (m : ℤ) (to : ℕ) → rescue_tokens e tok m to s ≡ ok s' → Sound this token s'
  unfolding load_total_assets load_total_shares paid_in paid_out
  rescue_tokens-Sound tok m to h =
      let (n, bond, p, q, w) = rescue_tokens-eq-ok e s tok m to h in
      record {
        shares_exact = ground (arith, w, c.shares_exact);
        queue_exact = ground (arith, w, c.queue_exact);
        assets_exact = ground (arith, w, c.assets_exact, p, q, c.token_set, t);
        token_set = ground (arith, w, c.token_set);
        admin = c.admin;
        admin_set = ground (arith, w, c.admin_set);
      }

module _ (this token : ℕ) (e : Host) {s s' : Vault} (c : Sound this token s) where
  receive_income-Sound : (m : ℤ) → receive_income e m s ≡ ok s' → Sound this token s'
  unfolding load_total_assets load_total_shares paid_in paid_out
  receive_income-Sound m h =
      let (n, k, w) = receive_income-eq-ok e s m h in
      record {
        shares_exact = ground (arith, w, c.shares_exact);
        queue_exact = ground (arith, w, c.queue_exact);
        assets_exact = ground (arith, w, c.assets_exact);
        token_set = ground (arith, w, c.token_set);
        admin = c.admin;
        admin_set = ground (arith, w, c.admin_set);
      }

  set_emergency_mode-Sound : (b : Bool) → set_emergency_mode e b s ≡ ok s' → Sound this token s'
  unfolding load_total_assets load_total_shares paid_in paid_out set_emergency_mode
  set_emergency_mode-Sound b h =
      let w : s' ≡ record s { emergency_mode = b } = ground (arith, c.admin_set) in
      record {
        shares_exact = ground (arith, w, c.shares_exact);
        queue_exact = ground (arith, w, c.queue_exact);
        assets_exact = ground (arith, w, c.assets_exact);
        token_set = ground (arith, w, c.token_set);
        admin = c.admin;
        admin_set = ground (arith, w, c.admin_set);
      }

  set_config-Sound : (m : ℤ) (k : ℕ) → set_config e m k s ≡ ok s' → Sound this token s'
  unfolding load_total_assets load_total_shares paid_in paid_out set_config
  set_config-Sound m k h =
      let w : s' ≡ record s { config = s'.config } = ground (arith, c.admin_set) in
      record {
        shares_exact = ground (arith, w, c.shares_exact);
        queue_exact = ground (arith, w, c.queue_exact);
        assets_exact = ground (arith, w, c.assets_exact);
        token_set = ground (arith, w, c.token_set);
        admin = c.admin;
        admin_set = ground (arith, w, c.admin_set);
      }

  not_again : (a t m : ℕ) → initialize e a t m s ≡ ok s' → ⊥
  unfolding initialize
  not_again a t m h = ground (arith, c.admin_set)

module _ (this token : ℕ) where
  pub Step-Sound : {s s' : Vault} → Sound this token s → Step this s s' → Sound this token s'
  Step-Sound c (initialized e a t m h) = absurd (not_again this token e c a t m h)
  Step-Sound c (deposited e lp m n t o h) = deposit-Sound this token e c t lp m o h
  Step-Sound c (withdrawn e lp m n t h) = withdraw-Sound this token e c t lp m h
  Step-Sound c (processed e lp t h) = process-Sound this token e c t lp h
  Step-Sound c (covered e m to t h) = cover-Sound this token e c t m to h
  Step-Sound c (earned e m h) = receive_income-Sound this token e c m h
  Step-Sound c (rescued e tok m to t h) = rescue_tokens-Sound this token e c t tok m to h
  Step-Sound c (switched e b h) = set_emergency_mode-Sound this token e c b h
  Step-Sound c (configured e m k h) = set_config-Sound this token e c m k h

  pub Reach-Sound : {s t : Vault} → Sound this token s → Reach this s t → Sound this token t
  Reach-Sound c here = c
  Reach-Sound c (next r x) = Step-Sound (Reach-Sound c r) x

-- A vault that nobody has initialized, and that has no entries.
pub record IsInitial (s : Vault) : Type 0 where
  pub no_admin : s.admin ≡ none
  pub no_shares : s.shares ≡ []
  pub no_queue : s.withdraw_queue ≡ []
  pub no_calls : s.calls ≡ []

initialize-Sound :
    (this : ℕ) (e : Host) (a token m : ℕ) {s s' : Vault}
    → IsInitial s
    → initialize e a token m s ≡ ok s'
    → Sound this token s'
unfolding initialize load_total_assets load_total_shares sum_by paid_in paid_out
initialize-Sound this e a token m init h = record {
  shares_exact = ground (arith, init.no_admin, init.no_shares);
  queue_exact = ground (arith, init.no_admin, init.no_queue);
  assets_exact = ground (arith, init.no_admin, init.no_calls);
  token_set = ground (arith, init.no_admin);
  admin = a;
  admin_set = ground (arith, init.no_admin);
}

-- After the vault is initialized without entries, along every sequence of successful calls, where
-- the vault itself is no depositor: the total of the shares is the virtual shares plus the
-- providers' shares, the total queued is the sum of the queue's entries, and the total assets
-- plus the bond tokens paid out are the virtual assets plus the bond tokens paid in plus the
-- reported income.
pub Reach-totals :
    (this : ℕ) (e : Host) (a token m : ℕ) {s s1 t : Vault}
    → IsInitial s
    → initialize e a token m s ≡ ok s1
    → Reach this s1 t
    → (load_total_shares t ≡ virtual_shares + sum_by amount_of t.shares)
      × (t.total_queued ≡ sum_by amount_of t.withdraw_queue)
      × (load_total_assets t + paid_out this token t.calls
          ≡ virtual_assets + paid_in this token t.calls + t.total_income)
Reach-totals this e a token m init h r =
    let c = Reach-Sound this token (initialize-Sound this e a token m init h) r in
    (c.shares_exact, c.queue_exact, c.assets_exact)
