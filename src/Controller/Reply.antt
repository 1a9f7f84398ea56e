-- ===== src/Controller/Reply.antt =====
-- What a reconciler returns: (ctrl.Result, error).
use smeltry_operator.Base.{Bool, true, false, Option, some, ℕ, ◌*◌, ℤ, pos}
use smeltry_operator.Error.{Error}

-- ctrl.Result
pub record CtrlResult : Type 0 where
  pub requeue : Bool
  pub requeue_after : ℤ

pub record Reply : Type 0 where
  pub result : CtrlResult
  pub error : Option Error

-- time.Second, in nanoseconds
abbrev pub second : ℕ
second = 1000000000

abbrev pub minute : ℕ
minute = 60 * second

-- ctrl.Result{}, err
abbrev pub reply : Option Error → Reply
reply e = record { result = record { requeue = false; requeue_after = pos 0 }; error = e }

-- ctrl.Result{}, err where err is not nil
abbrev pub failure : Error → Reply
failure e = reply (some e)

-- ctrl.Result{RequeueAfter: d}, err
abbrev pub reply_after : ℤ → Option Error → Reply
reply_after d e = record { result = record { requeue = false; requeue_after = d }; error = e }

-- ctrl.Result{RequeueAfter: 30 * time.Second}, err where err is not nil
abbrev pub retry : Error → Reply
retry e = reply_after (pos (30 * second)) (some e)

-- ctrl.Result{Requeue: true}, err
abbrev pub reply_requeue : Option Error → Reply
reply_requeue e = record { result = record { requeue = true; requeue_after = pos 0 }; error = e }
