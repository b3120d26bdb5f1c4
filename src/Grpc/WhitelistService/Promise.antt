-- ===== src/Grpc/WhitelistService/Promise.antt =====
-- What internal/grpc/whitelist_service.go promises, on the two tables of Whitelist.Abstract.
use aquatiq_root.Common.{
  ℕ, ◌≤◌, Text, lit, text_eq, ◌≡◌, true, false, Option, none, some, List, [], ◌∷◌, if◌then◌else◌,
}
use aquatiq_root.Whitelist.Types.{Error}
use aquatiq_root.Whitelist.Table.{Table, left_at}
use aquatiq_root.Whitelist.Abstract.{
  Lists, Saving, error_of as saving_error, spec_add, spec_remove, Decides, IsCount, Same,
}
use aquatiq_root.Grpc.WhitelistService.{
  ProtoEntry, error_of, Response, IsAllowedResponse, CleanupExpiredResponse,
}

-- A call of the service, and its answer.
pub data Request : Type 0 where
  add_white : Text → Text → Text → Option ℕ → Request
  remove_white : Text → Request
  add_black : Text → Text → Text → Request
  remove_black : Text → Request
  get_white get_black cleanup : Request
  ask : Text → Request

pub data Reply : Type 0 where
  responded : Response → Reply
  listed : List ProtoEntry → Reply
  decided : IsAllowedResponse → Reply
  cleaned : CleanupExpiredResponse → Reply

-- The response tells the result of the manager: success, or the error.
abbrev pub Told : Option Error → Response → Type 0
Told none r = r.success ≡ true
Told (some e) r = (r.success ≡ false) × (r.message ≡ error_of e)

-- The table that a list of entries shows.
abbrev pub shown : List ProtoEntry → Table
shown [] j = none
shown (p ∷ ps) j = if text_eq p.ip j then some p.expires_at else shown ps j

abbrev pub grpc_api : Text
grpc_api = lit "grpc-api"

abbrev pub Kept : Lists → Lists → Type 0
Kept a b = Same b.white a.white × Same b.black a.black

-- What a call answers, and what it makes of the tables: a response tells what the tables say for what became of the
-- file.
abbrev pub Promised : ℕ → ℕ → Saving → Request → Reply → Lists → Lists → Type 0
Promised from to s (add_white ip d by t) (responded r) a b =
    Told (spec_add ip t (saving_error s) a.white).0 r
    × Same b.white (spec_add ip t (saving_error s) a.white).1
    × Same b.black a.black
Promised from to s (remove_white ip) (responded r) a b =
    Told (spec_remove ip (saving_error s) a.white).0 r
    × Same b.white (spec_remove ip (saving_error s) a.white).1
    × Same b.black a.black
Promised from to s (add_black ip d by) (responded r) a b =
    Told (spec_add ip none none a.black).0 r
    × Same b.white a.white
    × Same b.black (spec_add ip none none a.black).1
Promised from to s (remove_black ip) (responded r) a b =
    Told (spec_remove ip none a.black).0 r
    × Same b.white a.white
    × Same b.black (spec_remove ip none a.black).1
Promised from to s get_white (listed ps) a b = Same (shown ps) a.white × Kept a b
Promised from to s get_black (listed ps) a b = Same (shown ps) a.black × Kept a b
Promised from to s (ask ip) (decided r) a b = Decides from to ip r.allowed a × Kept a b
Promised from to s cleanup (cleaned r) a b =
    IsCount from a.white r.whitelist_removed
    × (r.blacklist_removed ≡ 0)
    × Same b.white (λ j. left_at from (a.white j))
    × Same b.black a.black
Promised from to s _ _ a b = 1 ≤ 0

-- An exchange of the service with a client, with what became of the file, and the clock when the manager is called and when it has answered.
pub record Exchange : Type 0 where
  pub request : Request
  pub reply : Reply
  pub saving : Saving
  pub from : ℕ
  pub to : ℕ

pub data Serves : List Exchange → Lists → Lists → Type 0 where
  done : {a : Lists} → Serves [] a a
  next :
      {x : Exchange} {xs : List Exchange} {a b d : Lists}
      → Promised x.from x.to x.saving x.request x.reply a b
      → Serves xs b d
      → Serves (x ∷ xs) a d
