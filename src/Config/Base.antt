-- ===== src/Config/Base.antt =====
-- `BaseConfig`.
use shimakaze.Common.{ℕ, Bool, List}
use shimakaze.Common.Int.{ℤ}

-- A `std::string` is its bytes, an `int` an integer.
pub record BaseConfig : Type 0 where
  pub key : List ℕ
  pub crypt : List ℕ
  pub mode : List ℕ
  pub mtu : ℤ
  pub ratelimit : ℤ
  pub sndwnd : ℤ
  pub rcvwnd : ℤ
  pub datashard : ℤ
  pub parityshard : ℤ
  pub dscp : ℤ
  pub nocomp : Bool
  pub acknodelay : Bool
  pub nodelay : ℤ
  pub interval : ℤ
  pub resend : ℤ
  pub nc : ℤ
  pub sockbuf : ℤ
  pub smuxver : ℤ
  pub smuxbuf : ℤ
  pub framesize : ℤ
  pub streambuf : ℤ
  pub keepalive : ℤ
  pub closewait : ℤ
  pub snmplog : List ℕ
  pub snmpperiod : ℤ
  pub log_path : List ℕ
  pub loglevel : List ℕ
  pub quiet : Bool
  pub tcp : Bool
  pub pprof : Bool
  pub qpp : Bool
  pub qpp_count : ℤ
