-- ===== src/Run/Era.antt =====
-- Which goroutines can be left at each place of the program: a check of the program alone, and that
-- the programs of all plans pass it.
use svcinit.Common.{
  ℕ, ◌≡◌, refl, Bool, true, false, ◌&&◌, List, [], ◌∷◌, arith, ◌==◌, if◌then◌else◌,
}
use svcinit.Step.{Step, setup, start, stop, teardown}
use svcinit.Run.Program.{
  Plan, Instr, launch, join, started, verify, await, join_running, launch_all, run_stage,
  start_program, reversed_stages, shutdown_program, run_program,
}

-- `early`: only start goroutines are left. `setting k`: setup goroutines of stage `k` too.
-- `stopping k`: stop goroutines of stage `k` too. `late`: only teardown goroutines. `never`: a launch
-- that the era forbids.
pub data Era : Type 0 where
  early : Era
  setting stopping : ℕ → Era
  late never : Era

abbrev pub launch_era : ℕ → Step → Era → Era
launch_era k setup early = setting k
launch_era k setup (setting j) = if j == k then setting j else never
launch_era k start early = early
launch_era k stop early = stopping k
launch_era k stop (stopping j) = if j == k then stopping j else never
launch_era k teardown late = late
launch_era k st e = never

abbrev pub join_era : ℕ → Step → Era → Era
join_era k setup (setting j) = if j == k then early else setting j
join_era k stop (stopping j) = if j == k then early else stopping j
join_era k st e = e

abbrev pub is_early : Era → Bool
is_early early = true
is_early e = false

abbrev pub allowed : Era → Bool
allowed never = false
allowed e = true

abbrev pub running_era : Era → Era
running_era early = late
running_era e = e

-- The program launches each step in an era that allows it, if none of its waits gives up.
abbrev pub safe : Era → List Instr → Bool
safe e [] = true
safe e (launch k st i ∷ rest) = allowed (launch_era k st e) && safe (launch_era k st e) rest
safe e (join k st b ∷ rest) = safe (join_era k st e) rest
safe e (started k ∷ rest) = safe e rest
safe e (verify k ∷ rest) = is_early e && safe e rest
safe e (await ∷ rest) = is_early e && safe e rest
safe e (join_running b ∷ rest) = safe (running_era e) rest

same : (k : ℕ) → (k == k) ≡ true
same k = ground arith

setting_rest :
    (k : ℕ) (is : List ℕ) (rest : List Instr)
    → safe early rest ≡ true
    → safe (setting k) (launch_all k setup is (join k setup false ∷ rest)) ≡ true
unfolding launch_all
setting_rest k [] rest h = ground (arith, same k)
setting_rest k (i ∷ is) rest h = ground (arith, same k, setting_rest k is rest h)

safe-setup :
    (k : ℕ) (is : List ℕ) (rest : List Instr)
    → safe early rest ≡ true
    → safe early (run_stage k setup is false rest) ≡ true
unfolding run_stage
safe-setup k [] rest h = h
safe-setup k (i ∷ is) rest h = setting_rest k is rest h

safe-start :
    (k : ℕ) (is : List ℕ) (rest : List Instr)
    → safe early rest ≡ true
    → safe early (run_stage k start is false rest) ≡ true
unfolding run_stage
safe-start k [] rest h = h
safe-start k (i ∷ is) rest h = safe-start k is rest h

stopping_rest :
    (k : ℕ) (b : Bool) (is : List ℕ) (rest : List Instr)
    → safe early rest ≡ true
    → safe (stopping k) (launch_all k stop is (join k stop b ∷ rest)) ≡ true
unfolding launch_all
stopping_rest k b [] rest h = ground (arith, same k)
stopping_rest k b (i ∷ is) rest h = ground (arith, same k, stopping_rest k b is rest h)

safe-stop :
    (k : ℕ) (b : Bool) (is : List ℕ) (rest : List Instr)
    → safe early rest ≡ true
    → safe early (run_stage k stop is b rest) ≡ true
unfolding run_stage
safe-stop k b [] rest h = ground (arith, same k)
safe-stop k b (i ∷ is) rest h = stopping_rest k b is rest h

safe-teardown :
    (k : ℕ) (is : List ℕ) (rest : List Instr)
    → safe late rest ≡ true
    → safe late (run_stage k teardown is false rest) ≡ true
unfolding run_stage
safe-teardown k [] rest h = h
safe-teardown k (i ∷ is) rest h = safe-teardown k is rest h

safe-stops :
    (b : Bool) (plan : Plan) (rest : List Instr)
    → safe early rest ≡ true
    → safe early (reversed_stages stop b plan rest) ≡ true
unfolding reversed_stages
safe-stops b [] rest h = h
safe-stops b ((k, is) ∷ plan) rest h = safe-stops b plan _ (safe-stop k b is rest h)

safe-teardowns :
    (plan : Plan) (rest : List Instr)
    → safe late rest ≡ true
    → safe late (reversed_stages teardown false plan rest) ≡ true
unfolding reversed_stages
safe-teardowns [] rest h = h
safe-teardowns ((k, is) ∷ plan) rest h = safe-teardowns plan _ (safe-teardown k is rest h)

-- The shutdown of every plan is safe from the early era on.
pub shutdown_program-safe :
    (plan : Plan) (b : Bool) → safe early (await ∷ shutdown_program plan b) ≡ true
unfolding shutdown_program
shutdown_program-safe plan b = safe-stops b plan _ (safe-teardowns plan [] refl)

safe-starts :
    (plan : Plan) (rest : List Instr)
    → safe early rest ≡ true
    → safe early (start_program plan rest) ≡ true
unfolding start_program
safe-starts [] rest h = h
safe-starts ((k, is) ∷ plan) rest h =
    safe-setup k is _ (safe-start k is _ (safe-starts plan rest h))

pub run_program-safe : (plan : Plan) (b : Bool) → safe early (run_program plan b) ≡ true
unfolding run_program
run_program-safe plan b = safe-starts plan _ (shutdown_program-safe plan b)
