-- ===== src/Config/Secrets.antt =====
-- Secrets survive the round through the browser (`redacted` and `preserve_secrets` of
-- backend/src/config.rs).
use doc_craft_agent.Prelude.{◌≡◌, refl, ◌⊎◌, inl, inr, Text, text_eq, is_empty, [], ◌∷◌}
use doc_craft_agent.Model.{Settings}
use doc_craft_agent.Config.{mask, unmask, masked, redacted, preserve_secrets}

unmask-mask : (secret : Text) → unmask (mask secret) secret ≡ secret
unfolding is_empty text_eq
unmask-mask [] = refl
unmask-mask (c ∷ secret) = refl

mask_hides : (secret : Text) → (mask secret ≡ []) ⊎ (mask secret ≡ masked)
unfolding is_empty
mask_hides [] = inl refl
mask_hides (c ∷ secret) = inr refl

-- Saving the settings as the API showed them restores every secret and changes nothing.
pub preserve_secrets-redacted : {F : Type 0} (s : Settings F) → preserve_secrets (redacted s) s ≡ s
unfolding preserve_secrets redacted
preserve_secrets-redacted s =
    rw (unmask-mask s.db.password, unmask-mask s.llm.api_key, unmask-mask s.llm.proxy_password)

-- What the API shows of each of the three secrets is empty or the mask.
pub redacted_hides :
    {F : Type 0} (s : Settings F)
    → (((redacted s).db.password ≡ []) ⊎ ((redacted s).db.password ≡ masked))
      × (((redacted s).llm.api_key ≡ []) ⊎ ((redacted s).llm.api_key ≡ masked))
      × (((redacted s).llm.proxy_password ≡ []) ⊎ ((redacted s).llm.proxy_password ≡ masked))
unfolding redacted
redacted_hides s =
    (mask_hides s.db.password, mask_hides s.llm.api_key, mask_hides s.llm.proxy_password)
