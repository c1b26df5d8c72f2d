-- ===== src/Transparency/Accepted.antt =====
-- What an accepted transparency statement rests on.
use proofos.Prelude.{◌≤◌, String, ◌≡◌, refl, sym, ap, Bool, true, Option, none, some}
use proofos.Prelude.Lists.{length}
use proofos.Prelude.Sets.{has, distinct}
use proofos.Prelude.Results.{Result, ok, err, bind-ok, ok_inj}
use proofos.Integrity.{Hash}
use proofos.Signing.{SignatureLibrary}
use proofos.Quorum.Policy.{digest}
use proofos.Quorum.Evaluate.{QuorumState, quorum, insufficient, split_view, QuorumResult}
use proofos.Quorum.Backed.{Backed, quorum_is_Backed}
use proofos.Certificate.{QuorumCertificate, CertificateError, verify_certificate}
use proofos.Certificate.Binding.{CertificateBinds, verify_certificate-CertificateBinds}
use proofos.Gossip.{GossipBundle, GossipError, verify_bundle}
use proofos.Gossip.Recomputed.{Recomputed, verify_bundle-Recomputed}
use proofos.Transparency.{
  accepted, TransparencyError, TransparencyResult, Verifier, based, uncertified,
  certificate_refusal, certified, by_quorum_state, gossip_refusal, evaluate_transparency,
}

-- A certificate that was given and verified, for a quorum.
abbrev pub Certified :
    Hash
    → GossipBundle
    → Option QuorumCertificate
    → Option Verifier
    → QuorumResult
    → TransparencyResult
    → Type 0
Certified content_hash b certificate v r t =
    (c : QuorumCertificate) × (key : SignatureLibrary) × (signer : String) × (certificate ≡ some c)
    × (v ≡ some (key, signer))
    × (t ≡ based b r accepted (some c.signer_id))
    × CertificateBinds content_hash key signer c r

gossip_refusal-ok :
    (m : Result GossipError QuorumResult) {r : QuorumResult} → gossip_refusal m ≡ ok r → m ≡ ok r
gossip_refusal-ok (ok r) h = ap ok (ok_inj h)
gossip_refusal-ok (err e) h = cc

module _ (content_hash : Hash) (b : GossipBundle) where
  state_of :
      {x y : TransparencyResult}
      → ◌≡◌ {A = Result TransparencyError TransparencyResult} (ok x) (ok y)
      → x.state ≡ y.state
  state_of e = ap (λ (t : TransparencyResult). t.state) (ok_inj e)

  uncertified-state :
      (o : Option QuorumCertificate) (e : TransparencyError) (s t : TransparencyResult)
      → uncertified o e s ≡ ok t
      → s.state ≡ t.state
  uncertified-state none e s t h = state_of h
  uncertified-state (some c) e s t h = cc

  certificate_refusal-ok :
      (m : Result CertificateError (Unit {0})) (s t : TransparencyResult)
      → certificate_refusal m s ≡ ok t
      → (m ≡ ok tt) × (t ≡ s)
  certificate_refusal-ok (ok tt) s t h = (refl, sym (ok_inj h))
  certificate_refusal-ok (err e) s t h = cc

  certified-Certified :
      (r : QuorumResult) (certificate : Option QuorumCertificate) (v : Option Verifier)
      (t : TransparencyResult)
      → certified content_hash b r certificate v ≡ ok t
      → t.state ≡ accepted
      → Certified content_hash b certificate v r t
  unfolding certified
  certified-Certified r none v t h a = cc (state_of h, a)
  certified-Certified r (some c) none t h a = cc (state_of h, a)
  certified-Certified r (some c) (some (key, signer)) t h a =
      let m =
        certificate_refusal-ok (verify_certificate content_hash key signer c r)
          (based b r accepted (some c.signer_id)) t h in
      (
        c,
        key,
        signer,
        refl,
        refl,
        m.1,
        verify_certificate-CertificateBinds content_hash key signer c r m.0,
      )

  by_state-Certified :
      (certificate : Option QuorumCertificate) (v : Option Verifier) (s : QuorumState)
      (r : QuorumResult) (t : TransparencyResult)
      → by_quorum_state content_hash b certificate v s r ≡ ok t
      → t.state ≡ accepted
      → Certified content_hash b certificate v r t
  unfolding by_quorum_state
  by_state-Certified certificate v quorum r t h a = certified-Certified r certificate v t h a
  by_state-Certified certificate v split_view r t h a =
      cc (uncertified-state certificate _ _ t h, a)
  by_state-Certified certificate v insufficient r t h a =
      cc (uncertified-state certificate _ _ t h, a)

-- If the gate accepts, then a certificate was given that its signer signed for the recomputed
-- quorum, the bundle's policy is the pinned one, and the counted witnesses are different, enough, and each
-- of them has a vote in the bundle, under its pinned key, for the result's checkpoint digest.
pub accepted_is_Backed :
    (content_hash : Hash) (key_of : String → SignatureLibrary) (valid_key : String → Bool)
    (b : GossipBundle) (publisher : Verifier) (expected : String)
    (certificate : Option QuorumCertificate) (v : Option Verifier) (t : TransparencyResult)
    → evaluate_transparency content_hash key_of valid_key b publisher expected certificate v ≡ ok t
    → t.state ≡ accepted
    → ((r : QuorumResult) × Recomputed content_hash key_of valid_key publisher.0 publisher.1 b
          expected r
        × Certified content_hash b certificate v r t)
      × (expected ≡ digest content_hash b.policy_)
      × (distinct t.counted_witnesses ≡ true)
      × ((b.policy_).threshold ≤ length t.counted_witnesses)
      × ((w : String)
          → has w t.counted_witnesses ≡ true
          → Backed content_hash key_of b.policy_ b.votes t.checkpoint_digest w)
unfolding evaluate_transparency
accepted_is_Backed content_hash key_of valid_key b (key, publisher) expected certificate v t h a =
    let g =
      bind-ok
        (gossip_refusal (verify_bundle content_hash key_of valid_key key publisher b expected))
        (λ r. by_quorum_state content_hash b certificate v r.state r) h in
    let r = g.0 in
    let q =
      verify_bundle-Recomputed content_hash key_of valid_key key publisher b expected r
        (gossip_refusal-ok _ g.1) in
    let c = by_state-Certified content_hash b certificate v r.state r t g.2 a in
    let (_, _, _, _, _, same, binds) = c in
    let (pinned, d, enough, backed) =
      quorum_is_Backed content_hash key_of b.votes q.verifiers b.policy_ expected r q.evaluated
        binds.a_quorum in
    ((r, q, c), pinned, rw same d, rw same enough, rw same backed)
