-- ===== src/Issue/Genuine.antt =====
-- `handleIssue` of server.go for a config under `strictDeviceAttestationPolicy` of policy.go.
use npvtunnel_creator_server.Base.{◌≡◌, ◌≢◌, ◌⊎◌, ◌∙◌, ap, some, Text, text, []}
use npvtunnel_creator_server.Policy.{android_key_attestation, apple_app_attest}
use npvtunnel_creator_server.Policy.Evaluate.{run_verifier}
use npvtunnel_creator_server.Policy.Device.{
  strict_device_attestation_policy, platform_key, GenuineAndroid, GenuineIos, device_policy_passes,
}
use npvtunnel_creator_server.Configs.{ConfigEntry, config_by_id, resolve_config_ttl}
use npvtunnel_creator_server.Signing.{IssueRequest, parsed}
use npvtunnel_creator_server.Issue.{IssueState, Around, issued, handle_issue, reload}
use npvtunnel_creator_server.Issue.Grant.{Earned, handle_issue-Earned}

-- A config under the policy that blocks rooted devices is issued only to a device that the
-- verifier of its platform found genuine: for Android a hardware-backed key under a trusted root, a
-- verified boot, a locked bootloader and the released app, for iOS a hardware-backed key of the
-- creator's app under a trusted root.
pub handle_issue-genuine :
    (a : Around) (req : IssueRequest) (s : IssueState) (c e r : Text) (entry : ConfigEntry)
    (ios_app_id : Text)
    → config_by_id req.config_id (reload a s).configs ≡ some entry
    → entry.attestation_policy ≡ some (strict_device_attestation_policy ios_app_id)
    → (handle_issue a (parsed req) s).1 ≡ issued c e r
    → ((platform_key a.ops req.attestation ≡ text "ANDROID")
        × GenuineAndroid a.ops
            (run_verifier a.verifiers android_key_attestation req.attestation []))
      ⊎ ((platform_key a.ops req.attestation ≡ text "IOS")
          × (ios_app_id ≢ [])
          × GenuineIos (run_verifier a.verifiers apple_app_attest req.attestation ios_app_id))
unfolding resolve_config_ttl
handle_issue-genuine a req s c e r entry ios_app_id known strict granted =
    let (other, is, earned) = handle_issue-Earned a (parsed req) s c e r granted in
    let own : other ≡ req = cc is in of_earned (rw own at earned)
  where
    of_earned :
        Earned a req (reload a s) c e
        → ((platform_key a.ops req.attestation ≡ text "ANDROID")
            × GenuineAndroid a.ops
                (run_verifier a.verifiers android_key_attestation req.attestation []))
          ⊎ ((platform_key a.ops req.attestation ≡ text "IOS")
              × (ios_app_id ≢ [])
              × GenuineIos (run_verifier a.verifiers apple_app_attest req.attestation ios_app_id))
    of_earned earned =
        let one : earned.entry ≡ entry = cc (earned.known, known) in
        let policy : earned.entry.attestation_policy
            ≡ some (strict_device_attestation_policy ios_app_id) =
          ap (λ (x : ConfigEntry). x.attestation_policy) one ∙ strict in
        (device_policy_passes a.ops a.verifiers ios_app_id req.attestation
          (resolve_config_ttl (some earned.entry)) earned.decision (rw policy at earned.evaluates)
          earned.passes).1
