-- ===== src/Store/Committed.antt =====
-- tools/v2_state_store.py: what a transaction that returned has run.
use malts.Base.{◌≡◌, ◌∙◌, refl, Bool, true, false, if◌then◌else◌}
use malts.Base.Outcome.{done, raised, ◌>>◌, bind-eq-done}
use malts.Store.{Store, Services, Returns, transaction, read_only}

unless-eq-done :
    {A : Type 0} (b : Bool) (m : Returns A) {a : A}
    → (if b then raised read_only else m) ≡ done a
    → (b ≡ false) × (m ≡ done a)
unless-eq-done true m h = cc
unless-eq-done false m h = (refl, h)

pub transaction-eq-done :
    {A : Type 0} (services : Services) (body : Store → Returns A) (s : Store) {a : A}
    → transaction services body s ≡ done a
    → (s.readonly ≡ false) × (body s ≡ done a)
unfolding transaction
transaction-eq-done services body s h =
    let ready = services.authority_ready s >> services.transaction_guard s in
    let (writable, k) = unless-eq-done s.readonly (ready >> body s) h in
    let (_, _, ran) = bind-eq-done ready (λ _. body s) k in (writable, ran)

unless-false :
    {A : Type 0} (b : Bool) (m : Returns A) → b ≡ false → (if b then raised read_only else m) ≡ m
unless-false true m h = cc
unless-false false m h = refl

pub transaction-runs :
    {A : Type 0} (services : Services) (body : Store → Returns A) (s : Store)
    → s.readonly ≡ false
    → services.authority_ready s ≡ done tt
    → services.transaction_guard s ≡ done tt
    → transaction services body s ≡ body s
unfolding transaction
transaction-runs services body s writable ready guarded =
    unless-false s.readonly (services.authority_ready s >> services.transaction_guard s >> body s)
      writable
    ∙ rw (ready, guarded) refl
