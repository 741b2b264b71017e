-- ===== src/Downloaders/CloudDrive/Submit/Errors.antt =====
-- Which errors of `submit` come from the call that submits.
use tuntu.Prelude.{
  ◌≡◌, refl, ap, ◌∙◌, subst, Bool, true, false, not, Option, none, some, Text, String, ◌==◌,
  string_eq, nat_eq, list_eq, arith,
}
use tuntu.Errors.{Result, ok, err}
use tuntu.Downloaders.Client.{
  Reply, answers, raises, ClientError, other, rejected, result_unknown,
  external_task_already_exists, SubmitResult,
}
use tuntu.Downloaders.Snapshot.{DirectorySnapshot}
use tuntu.Downloaders.Paths.{normalize_absolute_path}
use tuntu.Downloaders.CloudDrive.{
  Link, Stub, Texts, Config, RpcError, RpcReply, replied, failed, is_interrupted, submit_operation,
  map_rpc_error, metadata,
}
use tuntu.Downloaders.CloudDrive.Tree.{snapshot}
use tuntu.Downloaders.CloudDrive.Submit.{
  with_baseline, submitted_as, add_offline, after_baseline, submit_parsed, submit_to, submit,
}
use tuntu.Magnet.{Urls, Magnet, canonical_uri, parse_magnet}
use tuntu.Downloaders.CloudDrive.Submit.Quiet.{
  is_quiet, Quiet, MaybeQuiet, normalize-Quiet, metadata-Quiet, snapshot-Quiet,
}

-- What an error tells of the call that submits: the snapshot that was taken before, and the reply.
abbrev pub Tells : ClientError → DirectorySnapshot → RpcReply Bool → Type 0
Tells (other code) baseline reply = ⊥
Tells (rejected code) baseline reply = reply ≡ replied false
Tells (external_task_already_exists code) baseline reply = (e : RpcError) × (reply ≡ failed e)
Tells (result_unknown code known) baseline reply =
    (known ≡ some baseline) × ((e : RpcError) × (reply ≡ failed e) × (is_interrupted e.code ≡ true))

mapped-Tells :
    (texts : Texts) (error : RpcError) (baseline : DirectorySnapshot) (c : ClientError)
    → map_rpc_error texts error submit_operation ≡ c
    → is_quiet (with_baseline baseline c) ≡ false
    → Tells (with_baseline baseline c) baseline (failed error)
unfolding map_rpc_error
mapped-Tells texts error baseline (other code) h k = absurd (cc)
mapped-Tells texts error baseline (rejected code) h k =
    let same : code ≡ "external_rejection" = ground arith in
    absurd (cc (subst (λ (c : String). not (c == "explicit_rejection") ≡ false) same k))
mapped-Tells texts error baseline (external_task_already_exists code) h k = (error, refl)
mapped-Tells texts error baseline (result_unknown code known) h k =
    (refl, (error, refl, ground arith))

module _ {W : Type 0} (texts : Texts) (urls : Urls) (stub : Stub W) (config : Config) where
  submitted_as-Tells :
      (btih destination : Text) (baseline : DirectorySnapshot) (reply : RpcReply Bool)
      (e : ClientError)
      → submitted_as texts urls stub config btih destination baseline reply ≡ raises e
      → is_quiet e ≡ false
      → Tells e baseline reply
  unfolding submitted_as
  submitted_as-Tells btih destination baseline (failed error) e h k =
      let same : with_baseline baseline (map_rpc_error texts error submit_operation) ≡ e = cc in
      subst (λ c. Tells c baseline (failed error)) same
        (mapped-Tells texts error baseline (map_rpc_error texts error submit_operation) refl
          (ap is_quiet same ∙ k))
  submitted_as-Tells btih destination baseline (replied false) e h k =
      let same : rejected "explicit_rejection" ≡ e = cc in
      subst (λ c. Tells c baseline (replied false)) same refl
  submitted_as-Tells btih destination baseline (replied true) e h k = absurd (cc)

  -- The call that submits, after a snapshot of the folder, and what the error tells of it.
  abbrev pub IsFromCall : Text → Text → Link W → ClientError → Type 0
  IsFromCall magnet_uri path s e =
      (destination token : Text) × (magnet : Magnet) × (baseline : DirectorySnapshot) × (s1
        s2 : Link W)
      × (normalize_absolute_path path ≡ answers destination)
      × (parse_magnet urls magnet_uri ≡ ok magnet)
      × (snapshot texts stub config destination true s ≡ some (answers baseline, s1))
      × (metadata texts stub config s1 ≡ (answers token, s2))
      × Tells e baseline
          (stub.add_offline_files token (canonical_uri urls magnet) destination
            config.check_folder_after_seconds s2.world).0

  -- An error of submit that leaves open whether the link was handed over, or says that the service
  -- refused it, comes from the call that submits it: ResultUnknown carries the snapshot that was
  -- taken before and comes with a broken call, and "explicit_rejection" with a reply that refuses.
  pub submit-IsFromCall :
      (magnet_uri path : Text) (s : Link W) {e : ClientError} {s' : Link W}
      → submit texts urls stub config magnet_uri path s ≡ ok (some (raises e, s'))
      → is_quiet e ≡ false
      → IsFromCall magnet_uri path s e
  unfolding submit
  submit-IsFromCall magnet_uri path s {e = e} {s' = s'} h k =
      by_path (normalize_absolute_path path) refl (normalize-Quiet path) h
    where
      loud :
          (e0 : ClientError) (s0 : Link W)
          → is_quiet e0 ≡ true
          → ◌≡◌ {A = Result (Option (Reply SubmitResult × Link W))}
              (ok (some (raises e0, s0)))
              (ok (some (raises e, s')))
          → ⊥
      loud e0 s0 q same = let one : e0 ≡ e = cc in cc (ap is_quiet one, q, k)

      by_token :
          (destination : Text) (magnet : Magnet) (baseline : DirectorySnapshot) (s1 : Link W)
          (m : Reply Text × Link W)
          → normalize_absolute_path path ≡ answers destination
          → parse_magnet urls magnet_uri ≡ ok magnet
          → snapshot texts stub config destination true s ≡ some (answers baseline, s1)
          → metadata texts stub config s1 ≡ m
          → Quiet m.0
          → ok (some (add_offline texts urls stub config magnet destination baseline m))
            ≡ ok (some (raises e, s'))
          → IsFromCall magnet_uri path s e
      by_token destination magnet baseline s1 (raises e0, s2) p q r t quiet same =
          absurd (loud e0 s2 quiet same)
      by_token destination magnet baseline s1 (answers token, s2) p q r t quiet same = (
        destination,
        token,
        magnet,
        baseline,
        s1,
        s2,
        p,
        q,
        r,
        t,
        submitted_as-Tells magnet.btih destination baseline _ e (cc) k,
      )

      by_snapshot :
          (destination : Text) (magnet : Magnet) (o : Option (Reply DirectorySnapshot × Link W))
          → normalize_absolute_path path ≡ answers destination
          → parse_magnet urls magnet_uri ≡ ok magnet
          → snapshot texts stub config destination true s ≡ o
          → MaybeQuiet o
          → ok (after_baseline texts urls stub config magnet destination o)
            ≡ ok (some (raises e, s'))
          → IsFromCall magnet_uri path s e
      by_snapshot destination magnet none p q r quiet same = absurd (cc)
      by_snapshot destination magnet (some (raises e0, s1)) p q r quiet same =
          absurd (loud e0 s1 quiet same)
      by_snapshot destination magnet (some (answers baseline, s1)) p q r quiet same =
          by_token destination magnet baseline s1 (metadata texts stub config s1) p q r refl
            (metadata-Quiet texts stub config s1) same

      by_magnet :
          (destination : Text) (parsed : Result Magnet)
          → normalize_absolute_path path ≡ answers destination
          → parse_magnet urls magnet_uri ≡ parsed
          → submit_parsed texts urls stub config destination parsed s ≡ ok (some (raises e, s'))
          → IsFromCall magnet_uri path s e
      by_magnet destination (err raised) p q same = absurd (cc)
      by_magnet destination (ok magnet) p q same =
          by_snapshot destination magnet (snapshot texts stub config destination true s) p q refl
            (snapshot-Quiet texts stub config destination true s) same

      by_path :
          (r : Reply Text)
          → normalize_absolute_path path ≡ r
          → Quiet r
          → submit_to texts urls stub config r magnet_uri s ≡ ok (some (raises e, s'))
          → IsFromCall magnet_uri path s e
      by_path (raises e0) p quiet same = absurd (loud e0 s quiet same)
      by_path (answers destination) p quiet same =
          by_magnet destination (parse_magnet urls magnet_uri) p refl same
