-- ===== src/Runtime/Memories/Reviews.antt =====
-- The review of a candidate memory.
use astra_agent.Base.{
  ◌≡◌, inl, inr, refl, sym, subst, ap, ◌∙◌, Bool, Bool-cases, true, false, Option, none, some,
  arith, ◌==◌, ==→eq,
}
use astra_agent.Base.Dict.{get, put, get-put, get-put_self, IsIndex, get-IsIndex}
use astra_agent.Base.Exec.{ok, err, conflict, Failure, Result, ◌>>=◌}
use astra_agent.Domain.Models.{Uuid, MemoryRecord}
use astra_agent.Runtime.State.{Store, Env}
use astra_agent.Runtime.Memories.{
  review_memory, find_replacement, retire_replacement, reviewed_memory, deleted_memory, is_promoted,
  is_candidate,
}

module _ (t : Uuid) (promote : Bool) (s : Store) where
  -- The answers of the check on the memory to replace, which only reads.
  pub data Replaces (o : Option Uuid) : Result (Option MemoryRecord) × Store → Type 0 where
    nothing : o ≡ none → Replaces o (ok none, s)
    rejected : (e : Failure) → Replaces o (err e, s)
    replaces :
        (i : Uuid) (r : MemoryRecord)
        → o ≡ some i
        → get s.memories i ≡ some r
        → r.tenant_id ≡ t
        → is_promoted r.state ≡ true
        → promote ≡ true
        → Replaces o (ok (some r), s)

  pub find_replacement-cases : (o : Option Uuid) → Replaces o (find_replacement t promote o s)
  unfolding find_replacement ◌>>=◌
  find_replacement-cases none = nothing refl
  find_replacement-cases (some i) = inspect (get s.memories i) refl
    where
      inspect :
          (o : Option MemoryRecord)
          → get s.memories i ≡ o
          → Replaces (some i) (find_replacement t promote (some i) s)
      inspect none e = rw e (rejected _)
      inspect (some r) e = elim (Bool-cases (r.tenant_id == t)) [
        | inr other ↦ rw (e, other) (rejected _)
        | inl own ↦ elim (Bool-cases (is_promoted r.state)) [
          | inr out ↦ rw (e, own, out) (rejected _)
          | inl promoted ↦ elim (Bool-cases promote) [
            | inr against ↦
                let raised : find_replacement t promote (some i) s
                    ≡ (err (conflict "rejection cannot replace a memory"), s) =
                  rw (e, own, promoted, against) refl in
                subst (Replaces (some i)) (sym raised) (rejected _)
            | inl agreed ↦
                let returned : find_replacement t promote (some i) s ≡ (ok (some r), s) =
                  rw (e, own, promoted, agreed) refl in
                subst (Replaces (some i)) (sym returned)
                  (replaces i r refl e (==→eq r.tenant_id t own) promoted agreed)
          ]
        ]
      ]

module _ (env : Env) (t k actor : Uuid) (promote : Bool) (o : Option Uuid) (s : Store) where
  abbrev run : Result MemoryRecord × Store
  run = review_memory env t k promote actor o s

  -- The cases of a review: refused, with nothing changed; done; or done with the memory that the
  -- reviewed one replaces deleted.
  pub data Outcome : Result MemoryRecord × Store → Type 0 where
    refused : (e : Failure) → Outcome (err e, s)
    reviewed :
        (m : MemoryRecord) (s' : Store)
        → get s.memories k ≡ some m
        → m.tenant_id ≡ t
        → is_candidate m.state ≡ true
        → o ≡ none
        → s'.memories ≡ put s.memories k (reviewed_memory (env.now 0) promote actor o m)
        → Outcome (ok (reviewed_memory (env.now 0) promote actor o m), s')
    replaced :
        (m r : MemoryRecord) (i : Uuid) (s' : Store)
        → get s.memories k ≡ some m
        → m.tenant_id ≡ t
        → is_candidate m.state ≡ true
        → o ≡ some i
        → get s.memories i ≡ some r
        → r.tenant_id ≡ t
        → is_promoted r.state ≡ true
        → promote ≡ true
        → s'.memories
          ≡ put
              (put s.memories k (reviewed_memory (env.now 0) promote actor o m))
              r.id
              (deleted_memory (env.now 0) r)
        → Outcome (ok (reviewed_memory (env.now 0) promote actor o m), s')

  candidate-Outcome :
      (m : MemoryRecord)
      → get s.memories k ≡ some m
      → (m.tenant_id == t) ≡ true
      → is_candidate m.state ≡ true
      → (r : Result (Option MemoryRecord) × Store) → find_replacement t promote o s ≡ r
      → Replaces t promote s o r
      → Outcome run
  unfolding review_memory retire_replacement ◌>>=◌
  candidate-Outcome m e own candidate _ found (nothing none_given) =
      rw (e, own, candidate, found)
        (reviewed m _ e (==→eq m.tenant_id t own) candidate none_given refl)
  candidate-Outcome m e own candidate _ found (rejected f) =
      rw (e, own, candidate, found) (refused f)
  candidate-Outcome m e own candidate _ found (replaces i r given at_i owner promoted agreed) =
      rw (e, own, candidate, found)
        (replaced m r i _ e (==→eq m.tenant_id t own) candidate given at_i owner promoted agreed
          refl)

  pub outcome : Outcome run
  unfolding review_memory ◌>>=◌
  outcome = inspect (get s.memories k) refl
    where
      inspect : (found : Option MemoryRecord) → get s.memories k ≡ found → Outcome run
      inspect none e = rw e (refused _)
      inspect (some m) e = elim (Bool-cases (m.tenant_id == t)) [
        | inr other ↦ rw (e, other) (refused _)
        | inl own ↦ elim (Bool-cases (is_candidate m.state)) [
          | inr out ↦ rw (e, own, out) (refused _)
          | inl candidate ↦
              candidate-Outcome m e own candidate _ refl (find_replacement-cases t promote s o)
        ]
      ]

  -- A review that raises has changed nothing.
  pub review_memory-refused : (e : Failure) → run.0 ≡ err e → run.1 ≡ s
  review_memory-refused e h = read run outcome h
    where
      read : (r : Result MemoryRecord × Store) → Outcome r → r.0 ≡ err e → r.1 ≡ s
      read _ (refused f) h = refl
      read _ (reviewed m s' _ _ _ _ _) h = cc h
      read _ (replaced m r i s' _ _ _ _ _ _ _ _ _) h = cc h

apart_by :
    (s : Store) (k i : Uuid) (m r : MemoryRecord)
    → get s.memories k ≡ some m
    → get s.memories i ≡ some r
    → is_candidate m.state ≡ true
    → is_promoted r.state ≡ true
    → (k == i) ≡ false
apart_by s k i m r at_k at_i candidate promoted = elim (Bool-cases (k == i)) [
  | inr apart ↦ apart
  | inl hit ↦
      let one : m ≡ r = cc (at_k, at_i, ap (get s.memories) (==→eq k i hit)) in
      ground (arith, one, candidate, promoted)
]

-- What a review that replaces a memory leaves: the candidate `m` reviewed, the memory `r` deleted.
pub record IsReplaced (env : Env) (t k actor i : Uuid) (s s' : Store) (c : MemoryRecord)
    : Type 0 where
  pub candidate : MemoryRecord
  pub old : MemoryRecord
  pub was_candidate : (get s.memories k ≡ some candidate) × (is_candidate candidate.state ≡ true)
  pub was_promoted : (get s.memories i ≡ some old) × (is_promoted old.state ≡ true)
  pub own : (candidate.tenant_id ≡ t) × (old.tenant_id ≡ t)
  pub result : c ≡ reviewed_memory (env.now 0) true actor (some i) candidate
  pub stored : get s'.memories k ≡ some c
  pub retired : get s'.memories i ≡ some (deleted_memory (env.now 0) old)

-- A review that names a memory to replace returns only when it promotes a candidate of the tenant
-- and the named memory is a promoted one of the tenant. Then the candidate is stored as promoted
-- and the named memory as deleted. The memories are stored under their own ids.
pub review_memory-replaces :
    (env : Env) (t k actor i : Uuid) (promote : Bool) (s : Store) (c : MemoryRecord)
    → IsIndex (λ m. m.id) s.memories
    → (review_memory env t k promote actor (some i) s).0 ≡ ok c
    → (promote ≡ true)
      × IsReplaced env t k actor i s (review_memory env t k promote actor (some i) s).1 c
review_memory-replaces env t k actor i promote s c index h =
    read _ (outcome env t k actor promote (some i) s) h
  where
    read :
        (r : Result MemoryRecord × Store)
        → Outcome env t k actor promote (some i) s r
        → r.0 ≡ ok c
        → (promote ≡ true) × IsReplaced env t k actor i s r.1 c
    read _ (refused e) h = cc h
    read _ (reviewed m s' _ _ _ e _) h = cc e
    read _ (replaced m r j s' at_k own_m candidate e at_j own_r promoted agreed after) h =
        let same : j ≡ i = cc e in
        let key : r.id ≡ i =
          get-IsIndex (λ (x : MemoryRecord). x.id) s.memories j index at_j ∙ same in
        let old : get s.memories i ≡ some r = ap (get s.memories) (sym same) ∙ at_j in
        let apart : (k == i) ≡ false = apart_by s k i m r at_k old candidate promoted in
        let review : Bool → MemoryRecord = λ b. reviewed_memory (env.now 0) b actor (some i) m in
        let new = review true in
        let gone = deleted_memory (env.now 0) r in
        let written : s'.memories ≡ put (put s.memories k new) i gone =
          after
          ∙ ap (λ b. put (put s.memories k (review b)) r.id gone) agreed
          ∙ ap (λ x. put (put s.memories k new) x gone) key in
        let result : c ≡ new = cc (h, ap review agreed) in
        (
          agreed,
          record {
            candidate = m;
            old = r;
            was_candidate = (at_k, candidate);
            was_promoted = (old, promoted);
            own = (own_m, own_r);
            result = result;
            stored = ground (
              arith,
              written,
              result,
              apart,
              get-put (put s.memories k new) i k gone,
              get-put_self s.memories k new,
            );
            retired = rw written (get-put_self (put s.memories k new) i _);
          },
        )
