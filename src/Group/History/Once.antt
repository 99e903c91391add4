-- ===== src/Group/History/Once.antt =====
-- group-service/src/handlers/mls_sync.rs: at most one commit is accepted for an epoch.
use construct_server.Base.{
  ℕ, List, Bool, Option, none, false, inl, ◌≡◌, some, subst, suc, true, ◌≤◌, arith, leb, refl, sym,
  ◌<◌, ◌≢◌, inr, All-of,
}
use construct_server.Group.{DeviceId, GroupRow, Group, ok}
use construct_server.Group.Commits.{submit_commit, SubmitCommitRequest, store_commit, commit_locked}
use construct_server.Group.Signed.{Directory}
use construct_server.Group.Lifecycle.{set_group_dissolved_at}
use construct_server.Group.Tables.{get_group_epoch}
use construct_server.Group.Outcomes.{IsDeleted, IsDelegated}
use construct_server.Group.Run.{Event, run, lasts, IsKept, lasting-IsKept}

-- Whether a group exists and is at the epoch or later.
abbrev reached : ℕ → Option ℕ → Bool
reached n none = false
reached n (some epoch) = leb n epoch

abbrev Reached : ℕ → Group → Type 0
Reached n g = reached n (get_group_epoch g.row) ≡ true

stored-Reached :
    (n : ℕ) (r : GroupRow) (mls_commit tree : List ℕ) (now : ℕ) (g : Group)
    → g.row ≡ some r
    → Reached n g
    → Reached n (store_commit r mls_commit tree now g)
unfolding store_commit
stored-Reached n r mls_commit tree now g found h =
    let h' : leb n r.epoch ≡ true = subst (λ row. reached n (get_group_epoch row) ≡ true) found h in
    ground arith

deleted-Reached :
    (n : ℕ) (g g' : Group) (target : DeviceId) → IsDeleted g target g' → Reached n g → Reached n g'
deleted-Reached n g g' target (inl e) h = subst (Reached n) (sym e) h
deleted-Reached n g g' target (inr e) h = subst (Reached n) (sym e) h

created-Reached : (n : ℕ) (g : Group) → g.row ≡ none → ¬ Reached n g
created-Reached n g e h =
    let h' : false ≡ true = subst (λ row. reached n (get_group_epoch row) ≡ true) e h in cc

dissolved-Reached :
    (n now : ℕ) (row : Option GroupRow)
    → get_group_epoch (set_group_dissolved_at now row) ≡ get_group_epoch row
dissolved-Reached n now none = refl
dissolved-Reached n now (some r) = refl

delegated-Reached :
    (n : ℕ) (g g' : Group) (target : DeviceId) (role : ℕ)
    → IsDelegated g target role g'
    → Reached n g
    → Reached n g'
delegated-Reached n g g' target role x h = subst (Reached n) (sym x.2) h

Reached-IsKept : (n now : ℕ) → IsKept now (Reached n)
Reached-IsKept n now = record {
  created = λ g device req row h. absurd (created-Reached n g row h);
  dissolved = λ g h. rw (dissolved-Reached n now g.row) h;
  delegated = delegated-Reached n;
  handed = λ g old new admins e h. h;
  committed = λ g r mls_commit tree found h. stored-Reached n r mls_commit tree now g found h;
  invited = λ g invites h. h;
  joined = λ g device found fresh h. h;
  deleted = λ g g' target plain x h. deleted-Reached n g g' target x h;
  sends = λ g r m found next h. subst (λ row. reached n (get_group_epoch row) ≡ true) found h;
  swept = λ g h. h;
}

accepted-Reached :
    (row : Option GroupRow) (g : Group) (req : SubmitCommitRequest) (now : ℕ) (stored : Bool)
    {answer : ℕ × ℕ}
    → (commit_locked row g req now stored).1 ≡ ok answer
    → Reached (suc req.epoch) (commit_locked row g req now stored).0
unfolding commit_locked store_commit
accepted-Reached none g req now stored e = cc
accepted-Reached (some r) g req now stored e = ground arith

submitted-Reached :
    (g : Group) (device : DeviceId) (req : SubmitCommitRequest) (now : ℕ) (stored : Bool)
    {answer : ℕ × ℕ}
    → (submit_commit g device req now stored).1 ≡ ok answer
    → Reached (suc req.epoch) (submit_commit g device req now stored).0
unfolding submit_commit
submitted-Reached g device req now stored {answer} e =
    ground (arith, accepted-Reached g.row g req now stored {answer = answer})

refused_at :
    (row : Option GroupRow) (g : Group) (req : SubmitCommitRequest) (now : ℕ) (stored : Bool)
    (n : ℕ) (answer : ℕ × ℕ)
    → reached n (get_group_epoch row) ≡ true
    → req.epoch < n
    → (commit_locked row g req now stored).1 ≢ ok answer
unfolding commit_locked
refused_at none g req now stored n answer h lt e = cc
refused_at (some r) g req now stored n answer h lt e = ground arith

-- What a submission answers, past its checks.
answers_of :
    (g : Group) (device : DeviceId) (req : SubmitCommitRequest) (now : ℕ) (stored : Bool)
    (answer : ℕ × ℕ)
    → (submit_commit g device req now stored).1 ≡ ok answer
    → (commit_locked g.row g req now stored).1 ≡ ok answer
unfolding submit_commit
answers_of g device req now stored answer e = ground arith

-- Once a commit was accepted for an epoch, no commit is accepted for this epoch or an earlier one,
-- by any device and after any run of the handlers and of clean-ups throughout which the group
-- exists.
pub submit_commit-once :
    (d : Directory) (g : Group) (es : List Event) (first second : DeviceId)
    (req req' : SubmitCommitRequest) (now now' : ℕ) (stored stored' : Bool) {answer answer' : ℕ × ℕ}
    → (submit_commit g first req now stored).1 ≡ ok answer
    → lasts d es (submit_commit g first req now stored).0 ≡ true
    → req'.epoch ≤ req.epoch
    → (submit_commit (run d es (submit_commit g first req now stored).0) second req' now' stored').1
      ≢ ok answer'
submit_commit-once d g es first second req req' now now' stored stored' {answer} {answer'} e there
      le e' =
    let g' = run d es (submit_commit g first req now stored).0 in
    let passed =
      lasting-IsKept d (Reached (suc req.epoch)) es _
        (All-of _ (λ e. Reached-IsKept (suc req.epoch) e.now) es) there
        (submitted-Reached g first req now stored e) in
    refused_at g'.row g' req' now' stored' (suc req.epoch) answer' passed (omega (arith, le))
      (answers_of g' second req' now' stored' answer' e')
