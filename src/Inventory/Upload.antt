-- ===== src/Inventory/Upload.antt =====
-- Uploads, and the order of the answers.
use lcl_fastapi.Prelude.{
  ◌<◌, Text, Bool, true, false, ◌||◌, some, [], ◌∷◌, ◌≡◌, refl, sym, ap, ◌∙◌, arith, All, if_false,
  subst,
}
use lcl_fastapi.Inventory.{Engine, Snapshot, Page, render, href, is_empty, finish, note}
use lcl_fastapi.Inventory.Events.{
  snapshot, refresh_answer, submit, upload_answer, inventory, rendered_or_reported, refreshed,
  handle, handle_all, uploaded, created, refused, upload_answered, send, Uploaded, is_none,
}
use lcl_fastapi.Inventory.Encode.{encode_path}
use lcl_fastapi.Inventory.Encode.Decode.{read_path}
use lcl_fastapi.Inventory.Encode.RoundTrip.{IsScalar, read_path-encode_path}
use lcl_fastapi.Inventory.Shown.{view}

-- The page after the request of an upload.
abbrev sending : Text → Page → Page
sending t p = record p {
  upload_disabled = true;
  uploading = some p.destination;
  requests = href t ∷ p.requests;
}

handle-submit :
    (engine : Engine) (p : Page) (t : Text)
    → p.upload_disabled ≡ false
    → is_none p.chosen ≡ false
    → is_empty p.destination ≡ false
    → encode_path p.destination ≡ some t
    → handle engine submit p ≡ sending t p
unfolding handle send
handle-submit engine p t u c d e =
    let closed_test : (p.upload_disabled || is_none p.chosen || is_empty p.destination) ≡ false =
      ground (arith, u, c, d) in
    if_false _ p (send engine (encode_path p.destination) p) closed_test
    ∙ ap (λ o. send engine o p) e

-- What an answer leaves of the page.
abbrev IsAnswered : Page → Page → Type 0
IsAnswered p q = (q.upload_disabled ≡ false) × (q.requests ≡ p.requests) × (view q ≡ view p)

upload_answered-IsAnswered :
    (name : Text) (a : Uploaded) (p : Page) → IsAnswered p (upload_answered (some name) a p)
unfolding upload_answered uploaded
upload_answered-IsAnswered name created p = (refl, refl, refl)
upload_answered-IsAnswered name (refused d) p = (refl, refl, refl)
upload_answered-IsAnswered name (Uploaded.failed t) p = (refl, refl, refl)

handle-upload_answer :
    (engine : Engine) (a : Uploaded) (t : Text) (p : Page)
    → IsAnswered (sending t p) (handle engine (upload_answer a) (sending t p))
unfolding handle
handle-upload_answer engine a t p = upload_answered-IsAnswered p.destination a (sending t p)

-- A submitted upload of a file is one request, whose path a server reads as the destination; the
-- button is disabled until the answer, and whatever the answer is it gives the button back, with the
-- table left as it was.
pub upload_answer-submit :
    (engine : Engine) (p : Page) (a : Uploaded)
    → p.upload_disabled ≡ false
    → is_none p.chosen ≡ false
    → is_empty p.destination ≡ false
    → All IsScalar p.destination
    → (t : Text) × (read_path t ≡ some p.destination)
      × ((handle engine submit p).requests ≡ href t ∷ p.requests)
      × ((handle engine submit p).upload_disabled ≡ true)
      × (handle engine submit (handle engine submit p) ≡ handle engine submit p)
      × ((handle_all engine (submit ∷ upload_answer a ∷ []) p).upload_disabled ≡ false)
      × ((handle_all engine (submit ∷ upload_answer a ∷ []) p).requests ≡ href t ∷ p.requests)
      × (view (handle_all engine (submit ∷ upload_answer a ∷ []) p) ≡ view p)
unfolding handle_all
upload_answer-submit engine p a u c d w =
    let (t, done, safe, back) = read_path-encode_path p.destination w in
    let sent = handle-submit engine p t u c d done in
    let answered =
      subst (λ q. IsAnswered (sending t p) (handle engine (upload_answer a) q)) (sym sent)
        (handle-upload_answer engine a t p) in
    (
      t,
      back,
      ap (λ (q : Page). q.requests) sent,
      ap (λ (q : Page). q.upload_disabled) sent,
      subst (λ q. handle engine submit q ≡ q) (sym sent) (unfold handle in refl),
      answered.0,
      answered.1,
      answered.2,
    )

revision-finish :
    (engine : Engine) (s : Snapshot) (b : Bool) (p : Page)
    → (finish engine s b p).0.revision ≡ p.revision
unfolding finish note
revision-finish engine s true p = ground arith
revision-finish engine s false p = refl

revision-render :
    (engine : Engine) (s : Snapshot) (p : Page) → (render engine s p).0.revision ≡ s.revision
unfolding render
revision-render engine s p = revision-finish engine s _ _

revision-inventory :
    (engine : Engine) (s : Snapshot) (p : Page)
    → p.closed ≡ false
    → (handle engine (inventory s) p).revision ≡ s.revision
unfolding handle
revision-inventory engine s p c =
    ap (λ (q : Page). q.revision) (if_false p.closed p (render engine s p).0 c)
    ∙ revision-render engine s p

revision-refresh :
    (engine : Engine) (s : Snapshot) (p : Page)
    → (handle engine (refresh_answer (snapshot s)) p).revision ≡ s.revision
unfolding handle refreshed rendered_or_reported
revision-refresh engine s p = reported (render engine s p) ∙ revision-render engine s p
  where
    reported : (r : Page × Bool) → (rendered_or_reported engine r).revision ≡ r.0.revision
    reported r = elim r.1 as (λ b. (rendered_or_reported engine (r.0, b)).revision ≡ r.0.revision) [
      | true ↦ refl
      | false ↦ refl
    ]

-- A snapshot that a refresh brings is shown even if it is older than the one the stream brought
-- since the request: the revision goes back.
pub refresh-inventory :
    (engine : Engine) (p : Page) (new old : Snapshot)
    → p.closed ≡ false
    → old.revision < new.revision
    → ((handle engine (inventory new) p).revision ≡ new.revision)
      × ((handle_all engine (inventory new ∷ refresh_answer (snapshot old) ∷ []) p).revision
          < new.revision)
unfolding handle_all
refresh-inventory engine p new old c h = (
  revision-inventory engine new p c,
  omega (arith, revision-refresh engine old (handle engine (inventory new) p)),
)
