-- ===== src/Settlement/Success/Payments.antt =====
-- A token call changes the log of the calls and nothing else.
use vortex_contracts.Base.{ℕ, ◌+◌, ◌-◌, ◌≡◌, List, ◌∷◌, arith, ltb, if◌then◌else◌, ok}
use vortex_contracts.Settlement.State.{
  Env, Storage, Transfer, load_config, transfer, transfer_positive,
}
use vortex_contracts.Settlement.Fill.{Delivery, pay_fill}
use vortex_contracts.Settlement.Slash.{Miss, pay_slash, vault_share}
use vortex_contracts.Settlement.Dispute.{Escrow, pay_escrow}

-- The log with one more transfer, if it moves anything.
abbrev pub add_positive : Transfer → List Transfer → List Transfer
add_positive t ts = if ltb 0 t.amount then t ∷ ts else ts

pub transfer-eq-ok :
    (e : Env) (t : Transfer) (s : Storage) {s' : Storage}
    → transfer e t s ≡ ok s'
    → s' ≡ record s { calls = t ∷ s.calls }
unfolding transfer
transfer-eq-ok e t s h = ground arith

pub transfer_positive-eq-ok :
    (e : Env) (t : Transfer) (s : Storage) {s' : Storage}
    → transfer_positive e t s ≡ ok s'
    → s' ≡ record s { calls = add_positive t s.calls }
unfolding transfer_positive
transfer_positive-eq-ok e t s h = ground arith

abbrev pub fill_calls : ℕ → Delivery → List Transfer → List Transfer
fill_calls solver d ts =
    add_positive
      (record { token = d.intent.dst_token; from = solver; to = d.fee_recipient; amount = d.fee })
      (record { token = d.intent.dst_token; from = solver; to = d.intent.user; amount = d.amount }
        ∷ ts)

pub pay_fill-eq-ok :
    (e : Env) (solver : ℕ) (d : Delivery) (s : Storage) {s' : Storage}
    → pay_fill e solver d s ≡ ok s'
    → s' ≡ record s { calls = fill_calls solver d s.calls }
unfolding pay_fill
pay_fill-eq-ok e solver d s h = ground arith

abbrev pub slash_share : Miss → Storage → ℕ
slash_share m s = vault_share (load_config s).backstop_vault_share_bps m.slash_amount

abbrev pub slash_call : Env → Miss → ℕ → Transfer
slash_call e m n = record {
  token = m.intent.bond_token;
  from = e.this;
  to = m.fee_recipient;
  amount = n;
}

pub pay_slash-eq-ok :
    (e : Env) (m : Miss) (s : Storage) {s' : Storage}
    → pay_slash e m s ≡ ok s'
    → s' ≡ record s {
      backstop_pool = s.backstop_pool + slash_share m s;
      calls =
          add_positive
            (slash_call e m m.slash_amount)
            (add_positive (slash_call e m (m.slash_amount - slash_share m s)) s.calls);
    }
unfolding pay_slash
pay_slash-eq-ok e m s h = ground arith

abbrev pub escrow_call : Env → Escrow → ℕ → ℕ → Transfer
escrow_call e x to n = record { token = x.intent.dst_token; from = e.this; to = to; amount = n }

pub pay_escrow-eq-ok :
    (e : Env) (x : Escrow) (fee : ℕ) (s : Storage) {s' : Storage}
    → pay_escrow e x fee s ≡ ok s'
    → s' ≡ record s {
      calls =
          add_positive
            (escrow_call e x x.fee_recipient fee)
            (escrow_call e x x.intent.user (x.amount - fee) ∷ s.calls);
    }
unfolding pay_escrow
pay_escrow-eq-ok e x fee s h = ground arith
