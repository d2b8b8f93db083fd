-- ===== src/Api/Handlers/Login.antt =====
-- What the API answers to a throttled login.
