-- ===== src/Listener.antt =====
-- internal/listener/listener.go: the limits on miner connections, as steps of connections that
-- interleave. `conns` holds the connections whose slot is not given back yet, with what each has done
-- of it; a step names one by its place in that list.
pub mod Counts
mod Tests
use simple_mining_proxy.Base.{
  ℕ, zero, suc, ◌+◌, ◌-◌, Bool, true, false, ◌&&◌, ◌||◌, not, Option, none, some, List, [], ◌∷◌,
  Text, Map, ltb, leb, ◌==◌, if◌then◌else◌, lookup, insert, delete,
}
use simple_mining_proxy.Stats.{counter}

-- What the limits read of the settings.
pub record Bounds : Type 0 where
  pub max_connections : ℕ
  pub max_pending : ℕ
  pub max_per_ip : ℕ

-- A connection that waits for its first message, one after that, and one that `release` has taken
-- out of the total but not yet out of the table by address.
pub data Phase : Type 0 where
  waiting talking leaving : Phase

pub record Conn : Type 0 where
  pub ip : Text
  pub phase : Phase

pub record Limits : Type 0 where
  pub total : ℕ
  pub pending : ℕ
  pub per_ip : Map ℕ
  pub conns : List Conn

abbrev pub new_limits : Limits
new_limits = record { total = 0; pending = 0; per_ip = []; conns = [] }

-- The tests of `acquire`.
unfoldable pub is_full : Bounds → Text → Limits → Bool
is_full b ip l =
    leb b.max_connections l.total
    || (leb b.max_pending l.pending
        || (ltb 0 b.max_per_ip && leb b.max_per_ip (counter (lookup ip l.per_ip))))

-- `acquire`
unfoldable pub acquire : Bounds → Text → Limits → Limits
unfolding is_full
acquire b ip l = if is_full b ip l then l else record {
  total = l.total + 1;
  pending = l.pending + 1;
  per_ip = insert ip (counter (lookup ip l.per_ip) + 1) l.per_ip;
  conns = record { ip = ip; phase = waiting } ∷ l.conns;
}

abbrev pub nth : ℕ → List Conn → Option Conn
nth n [] = none
nth zero (c ∷ cs) = some c
nth (suc n) (c ∷ cs) = nth n cs

abbrev pub set_phase : ℕ → Phase → List Conn → List Conn
set_phase n p [] = []
set_phase zero p (c ∷ cs) = record c { phase = p } ∷ cs
set_phase (suc n) p (c ∷ cs) = c ∷ set_phase n p cs

abbrev pub remove_at : ℕ → List Conn → List Conn
remove_at n [] = []
remove_at zero (c ∷ cs) = cs
remove_at (suc n) (c ∷ cs) = c ∷ remove_at n cs

-- `firstDone`, which works once.
abbrev pub done_at : ℕ → Phase → Limits → Limits
done_at n waiting l = record l { pending = l.pending - 1; conns = set_phase n talking l.conns }
done_at n talking l = l
done_at n leaving l = l

-- `release` up to `l.total.Add(-1)`.
abbrev pub leave_at : ℕ → Phase → Limits → Limits
leave_at n waiting l = record l {
  pending = l.pending - 1;
  total = l.total - 1;
  conns = set_phase n leaving l.conns;
}
leave_at n talking l = record l { total = l.total - 1; conns = set_phase n leaving l.conns }
leave_at n leaving l = l

-- The locked part of `release`.
abbrev pub drop_ip : Text → Map ℕ → Map ℕ
drop_ip ip m = let n = counter (lookup ip m) in if leb n 1 then delete ip m else insert ip (n - 1) m

abbrev pub forget_at : ℕ → Conn → Phase → Limits → Limits
forget_at n c leaving l = record l { per_ip = drop_ip c.ip l.per_ip; conns = remove_at n l.conns }
forget_at n c waiting l = l
forget_at n c talking l = l

pub data Step : Type 0 where
  connect : Text → Step
  first_done leave forget : ℕ → Step

-- A step of the connection at a place.
abbrev pub on_conn : Step → Option Conn → Limits → Limits
on_conn s none l = l
on_conn (connect ip) (some c) l = l
on_conn (first_done n) (some c) l = done_at n c.phase l
on_conn (leave n) (some c) l = leave_at n c.phase l
on_conn (forget n) (some c) l = forget_at n c c.phase l

unfoldable pub step : Bounds → Step → Limits → Limits
unfolding acquire
step b (connect ip) l = acquire b ip l
step b (first_done n) l = on_conn (first_done n) (nth n l.conns) l
step b (leave n) l = on_conn (leave n) (nth n l.conns) l
step b (forget n) l = on_conn (forget n) (nth n l.conns) l

unfoldable pub steps : Bounds → List Step → Limits → Limits
unfolding step
steps b [] l = l
steps b (s ∷ ss) l = steps b ss (step b s l)
