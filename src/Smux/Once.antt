-- ===== src/Smux/Once.antt =====
-- What a `SmuxStream` does once at most, and what it no longer does when it is closed.
use shimakaze.Common.{
  ℕ, ◌+◌, ◌≤◌, Bool, true, false, if◌then◌else◌, List, [], ◌∷◌, ◌++◌, ◌≡◌, refl, ap, ◌∙◌, sym,
  arith, append-nil, append_assoc,
}
use shimakaze.Smux.State.{Stream, Effect, send_frame, stream_closed, fin, emit}

-- How many of each there are in a list of calls.
abbrev pub fin_of : Effect → ℕ
fin_of (send_frame fin id p) = 1
fin_of e = 0

abbrev pub frame_of : Effect → ℕ
frame_of (send_frame c id p) = 1
frame_of e = 0

abbrev pub end_of : Effect → ℕ
end_of (stream_closed id) = 1
end_of e = 0

unfoldable pub total : (Effect → ℕ) → List Effect → ℕ
total f [] = 0
total f (e ∷ es) = f e + total f es

pub total-append :
    (f : Effect → ℕ) (xs ys : List Effect) → total f (xs ++ ys) ≡ total f xs + total f ys
unfolding total
total-append f [] ys = omega arith
total-append f (x ∷ xs) ys = omega (arith, total-append f xs ys)

abbrev pub bit : Bool → ℕ
bit true = 1
bit false = 0

-- A part of a handler: each FIN and each report of the end raises its flag, no flag falls, and a
-- closed stream sends no frame but window updates.
pub record Step (s s' : Stream) : Type 0 where
  pub new : List Effect
  pub effects : s'.effects ≡ s.effects ++ new
  pub fins : total fin_of new + bit s.local_fin_sent ≤ bit s'.local_fin_sent
  pub ends : total end_of new + bit s.closed ≤ bit s'.closed
  pub silent : s.closed ≡ true → total frame_of new ≡ 0

pub bit→true : (b : Bool) → 1 ≤ bit b → b ≡ true
bit→true true h = refl
bit→true false h = absurd (omega arith)

pub stay : (s : Stream) → Step s s
unfolding total
stay s = record {
  new = [];
  effects = sym (append-nil s.effects);
  fins = omega arith;
  ends = omega arith;
  silent = λ c. refl;
}

pub join : (s t u : Stream) → Step s t → Step t u → Step s u
join s t u f g = record {
  new = f.new ++ g.new;
  effects = g.effects ∙ ap (λ x. x ++ g.new) f.effects ∙ append_assoc s.effects f.new g.new;
  fins = omega (arith, total-append fin_of f.new g.new, f.fins, g.fins);
  ends = omega (arith, total-append end_of f.new g.new, f.ends, g.ends);
  silent = λ c. omega (
    arith,
    total-append frame_of f.new g.new,
    f.silent c,
    g.silent (bit→true t.closed (omega (arith, f.ends, ap bit c))),
  );
}

-- A change that asks for nothing, keeps the FIN flag and the closed flag.
pub quiet :
    (s s' : Stream)
    → s'.effects ≡ s.effects
    → s'.local_fin_sent ≡ s.local_fin_sent
    → s'.closed ≡ s.closed
    → Step s s'
unfolding total
quiet s s' e f c = record {
  new = [];
  effects = e ∙ sym (append-nil s.effects);
  fins = omega (arith, ap bit f);
  ends = omega (arith, ap bit c);
  silent = λ h. refl;
}

-- A call that is neither a frame nor the report of the end.
pub ask :
    (e : Effect) (s : Stream) → fin_of e ≡ 0 → frame_of e ≡ 0 → end_of e ≡ 0 → Step s (emit e s)
unfolding total
ask e s f r d = record {
  new = e ∷ [];
  effects = refl;
  fins = omega (arith, f);
  ends = omega (arith, d);
  silent = λ h. omega (arith, r);
}

pub if-Step :
    (b : Bool) (s t u : Stream)
    → (b ≡ true → Step s t)
    → (b ≡ false → Step s u)
    → Step s (if b then t else u)
if-Step true s t u f g = f refl
if-Step false s t u f g = g refl
