-- ===== src/Socket/Halves.antt =====
-- The two halves of a split `TcpStream` of src/socket/mod.rs: each is dropped by a look at the
-- count of the shared `Arc`, a close if it is 1, and then the release of its reference. The halves
-- may be dropped by two threads, step by step in any order.
use tap_tunnel.Prelude.{ℕ, ◌+◌, ◌-◌, ◌≤◌, ◌≡◌, refl, ◌==◌, if◌then◌else◌, arith}

-- The count of references, and how often `TcpClose` was sent.
pub record Inner : Type 0 where
  pub strong_count : ℕ
  pub closes : ℕ

-- What a half has done of its drop.
pub data Phase : Type 0 where
  held checked dropped : Phase

pub record Halves : Type 0 where
  pub inner : Inner
  pub read_half : Phase
  pub write_half : Phase

-- After `into_split`.
abbrev pub into_split : Halves
into_split = record {
  inner = record { strong_count = 2; closes = 0 };
  read_half = held;
  write_half = held;
}

-- `if Arc::strong_count(&self.inner) == 1 { self.inner.close() }`
unfoldable pub check : Inner → Inner
check i = if i.strong_count == 1 then record i { closes = i.closes + 1 } else i

-- The release of the `Arc` after the body of `drop`.
unfoldable pub release : Inner → Inner
release i = record i { strong_count = i.strong_count - 1 }

pub data Step : Halves → Halves → Type 0 where
  read_checks :
      (i : Inner) (other : Phase)
      → Step
          (record { inner = i; read_half = held; write_half = other })
          (record { inner = check i; read_half = checked; write_half = other })
  read_drops :
      (i : Inner) (other : Phase)
      → Step
          (record { inner = i; read_half = checked; write_half = other })
          (record { inner = release i; read_half = dropped; write_half = other })
  write_checks :
      (i : Inner) (other : Phase)
      → Step
          (record { inner = i; read_half = other; write_half = held })
          (record { inner = check i; read_half = other; write_half = checked })
  write_drops :
      (i : Inner) (other : Phase)
      → Step
          (record { inner = i; read_half = other; write_half = checked })
          (record { inner = release i; read_half = other; write_half = dropped })

pub data Steps : Halves → Halves → Type 0 where
  done : (h : Halves) → Steps h h
  step : {a b c : Halves} → Steps a b → Step b c → Steps a c

-- The references that a half holds, and the checks that it has to come.
abbrev references : Phase → ℕ
references held = 1
references checked = 1
references dropped = 0

abbrev checks_left : Phase → ℕ
checks_left held = 1
checks_left checked = 0
checks_left dropped = 0

abbrev pub IsCounted : Halves → Type 0
IsCounted h =
    (h.inner.strong_count ≡ references h.read_half + references h.write_half)
    × (h.inner.closes + checks_left h.read_half ≤ 1)
    × (h.inner.closes + checks_left h.write_half ≤ 1)

checks-closes :
    (i : Inner) (other : Phase)
    → i.strong_count ≡ 1 + references other
    → i.closes + 1 ≤ 1
    → i.closes + checks_left other ≤ 1
    → ((check i).strong_count ≡ 1 + references other)
      × ((check i).closes ≤ 1)
      × ((check i).closes + checks_left other ≤ 1)
unfolding check
checks-closes i held a b c = ground arith
checks-closes i checked a b c = ground arith
checks-closes i dropped a b c = ground arith

Step-IsCounted : {a b : Halves} → Step a b → IsCounted a → IsCounted b
unfolding release
Step-IsCounted (read_checks i other) (n, r, w) =
    let (n', r', w') = checks-closes i other n r w in (n', omega arith, w')
Step-IsCounted (read_drops i other) (n, r, w) = (omega arith, r, w)
Step-IsCounted (write_checks i other) (n, r, w) =
    let (n', r', w') = checks-closes i other (omega arith) w r in (omega arith, w', omega arith)
Step-IsCounted (write_drops i other) (n, r, w) = (omega arith, r, w)

-- However the drops of the two halves interleave, the count of references is the number of halves
-- that are not dropped, and `TcpClose` is sent at most once, and not before a half is past its
-- check.
pub Steps-IsCounted : (h : Halves) → Steps into_split h → IsCounted h
Steps-IsCounted h steps = from steps (refl, omega arith, omega arith)
  where
    from : {a b : Halves} → Steps a b → IsCounted a → IsCounted b
    from (done a) v = v
    from (step before next) v = Step-IsCounted next (from before v)

-- One drop after the other: the second closes.
pub sequential : Steps into_split (record {
  inner = record { strong_count = 0; closes = 1 };
  read_half = dropped;
  write_half = dropped;
})
unfolding check release
sequential =
    step (step (step (step (done _) (read_checks _ _)) (read_drops _ _)) (write_checks _ _))
      (write_drops _ _)

-- Both checks before the first release: nobody closes.
pub overlapping : Steps into_split (record {
  inner = record { strong_count = 0; closes = 0 };
  read_half = dropped;
  write_half = dropped;
})
unfolding check release
overlapping =
    step (step (step (step (done _) (read_checks _ _)) (write_checks _ _)) (read_drops _ _))
      (write_drops _ _)
