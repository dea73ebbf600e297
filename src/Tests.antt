-- ===== src/Tests.antt =====
-- Sample wallets, operations and databases, and the statements of the theorems at them.
mod Amounts
mod Records
mod Wagers
mod Stores
mod Tables
mod Services
mod System
mod Tools
use apostas_api.Prelude.{◌≡◌, true, false, Bool, Option, none, some, List, [], ◌∷◌, String}
use apostas_api.Prelude.Int.{ℤ, pos}
use apostas_api.Prelude.Eq.{◌==◌, string_eq}
use apostas_api.Result.{Result, ok, err}
use apostas_api.Values.{Uuid, Time}
use apostas_api.Money.{Currencies, Money}
use apostas_api.Wallet.{Wallet}
use apostas_api.Transaction.{Kind, bet, refund, processed}
use apostas_api.Wager.{Operation, Reference}
use apostas_api.Events.{Stamp}
use apostas_api.Database.{Database}
use apostas_api.Store.{Fresh, InboxMessage, WagerResult}

-- A currency table with one code.
instance abbrev pub one_currency : Currencies
one_currency = record { parse_iso = λ code. code == "BRL" }

abbrev pub reais : ℤ → Money
reais n = record { minor = n; currency = "BRL" }

-- Player 7 and the wallet 1, opened at the time 50 with 1000 cents.
abbrev pub opened : Wallet
opened = record {
  id = 1;
  player_id = 7;
  balance = reais (pos 1000);
  version = pos 1;
  created_at = 50;
  updated_at = 50;
}

abbrev pub empty : Database
empty = record { wallets = []; transactions = []; ledger = []; inbox = []; outbox = [] }

abbrev pub bet_op : Operation
bet_op = record {
  provider_id = "p";
  external_transaction_id = "bet-1";
  idempotency_key = "key-1";
  player_id = 7;
  wallet_id = 1;
  round_id = "r";
  game_id = "g";
  kind = bet;
  money = reais (pos 300);
  reference_external_transaction_id = "";
}

abbrev pub refund_op : Operation
refund_op = record bet_op {
  external_transaction_id = "refund-1";
  idempotency_key = "key-2";
  kind = refund;
  reference_external_transaction_id = "bet-1";
}

-- The bet, as a refund finds it.
abbrev pub bet_ref : Reference
bet_ref = record {
  id = 21;
  kind = bet;
  status = processed;
  wallet_id = 1;
  player_id = 7;
  round_id = "r";
  money = reais (pos 300);
  already_reversed = false;
}

abbrev pub message : InboxMessage
message = record { consumer_name = "wager"; message_id = "m"; payload_hash = "payload" }
